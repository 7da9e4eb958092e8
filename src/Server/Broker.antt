-- ===== src/Server/Broker.antt =====
-- internal/server/sse.go: the broker of the event streams. Each method runs under the broker's
-- mutex, so that it is one step on the state. The channels ever made are listed in the order of
-- their making; a channel's place stands for the pointer, and its flag for its being in the map
-- `clients`.
pub mod Reach
pub mod Delivery
pub mod Places
pub mod Fifo
pub mod Heard
pub mod Closing
pub mod Late
use wingstation.Prelude.{
  Str, Bool, true, false, List, [], ◌∷◌, ◌++◌, Option, none, some, if◌then◌else◌, length, ltb, ℕ,
  zero, suc,
}
use wingstation.Go.Result.{Result, ok, err, panic, and_then}
use wingstation.Server.Events.{event_text}

pub record Channel : Type 0 where
  pub buffer : List Str
  pub closed : Bool
  pub registered : Bool

-- `stopped` says whether `stopCh` is closed.
pub record Broker : Type 0 where
  pub channels : List Channel
  pub stopped : Bool

-- `make(chan string, 16)`
abbrev pub capacity : ℕ
capacity = 16

abbrev pub new_broker : Broker
new_broker = record { channels = []; stopped = false }

abbrev pub new_channel : Channel
new_channel = record { buffer = []; closed = false; registered = true }

-- What is done to the channel at one place.
unfoldable pub at_place : ℕ → (Channel → Channel) → List Channel → List Channel
at_place i f [] = []
at_place zero f (ch ∷ chs) = f ch ∷ chs
at_place (suc i) f (ch ∷ chs) = ch ∷ at_place i f chs

-- `Subscribe`: the place of the new channel, and the broker.
unfoldable pub subscribe : Broker → ℕ × Broker
subscribe b = (length b.channels, record b { channels = b.channels ++ new_channel ∷ [] })

-- `Unsubscribe`
unfoldable pub unsubscribe : ℕ → Broker → Broker
unfolding at_place
unsubscribe i b = record b {
  channels = at_place i (λ ch. record ch { registered = false }) b.channels;
}

-- What is done to every channel, up to a panic.
unfoldable pub each : (Channel → Result Channel) → List Channel → Result (List Channel)
each f [] = ok []
each f (ch ∷ chs) = and_then (f ch) (λ c. and_then (each f chs) (λ cs. ok (c ∷ cs)) err) err

-- The body of the loop of `Broadcast`: a full channel is skipped, and to send on a closed one
-- panics.
unfoldable pub deliver : Str → Channel → Result Channel
deliver msg ch =
    if ch.registered
    then if ch.closed
      then panic
      else if ltb (length ch.buffer) capacity
      then ok (record ch { buffer = ch.buffer ++ msg ∷ [] })
      else ok ch
    else ok ch

unfoldable pub broadcast : Str → Str → Broker → Result Broker
unfolding each deliver
broadcast name payload b =
    and_then (each (deliver (event_text name payload)) b.channels)
      (λ chs. ok (record b { channels = chs })) err

-- The body of the loop of `Stop`, and the map made anew: to close a closed channel panics.
unfoldable pub shut : Channel → Result Channel
shut ch =
    if ch.registered
    then if ch.closed then panic else ok (record ch { closed = true; registered = false })
    else ok ch

unfoldable pub stop_broker : Broker → Result Broker
unfolding each shut
stop_broker b =
    if b.stopped
    then panic
    else and_then (each shut b.channels) (λ chs. ok (record { channels = chs; stopped = true })) err

abbrev pub without_first : Channel → Channel
without_first ch = record ch { buffer = elim ch.buffer [ [] ↦ [] | m ∷ ms ↦ ms ] }

-- `<-ch` of the handler: its message leaves the buffer.
unfoldable pub receive : ℕ → Broker → Broker
unfolding at_place
receive i b = record b { channels = at_place i without_first b.channels }
