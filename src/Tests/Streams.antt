-- ===== src/Tests/Streams.antt =====
-- The broker's streams at concrete runs.
use mathlib.Core.List.{Sublist}
use mathlib.Core.Option.{some-injective}
use mathlib.Core.Path.{subst}
use wingstation.Prelude.{Str, bytes, [], ◌∷◌, ◌++◌, some, ◌≡◌, refl, All, ℕ, true, false}
use wingstation.Go.Result.{ok, panic}
use wingstation.Server.Events.{event_text}
use wingstation.Server.Broker.{
  Broker, Channel, new_broker, subscribe, receive, broadcast, stop_broker, each, deliver,
}
use wingstation.Server.Broker.Reach.{Reachable, starts, steps, subscribes, IsShut}
use wingstation.Server.Broker.Places.{channel_at}
use wingstation.Server.Broker.Fifo.{Heard, begins, sends, takes, another_begins}
use wingstation.Server.Broker.Heard.{AnyRoom, HasRoom, Heard-ordered, Heard-complete}
use wingstation.Server.Broker.Closing.{closed_channel, stop_broker-closes}
use wingstation.Server.Broker.Late.{at_once, and_then_step, subscribe-never_closed}

abbrev up : Str
up = event_text (bytes "up") (bytes "now")

-- One stream, another that begins later, and an event that the first takes.
abbrev two : Broker
two = (subscribe (subscribe new_broker).1).1

abbrev waiting : Channel
waiting = record { buffer = up ∷ []; closed = false; registered = true }

abbrev sent_to_two : Broker
sent_to_two = record { channels = waiting ∷ waiting ∷ []; stopped = false }

sends_up : broadcast (bytes "up") (bytes "now") two ≡ ok sent_to_two
unfolding broadcast each deliver subscribe
sends_up = refl

ordered_run : Heard AnyRoom 0 (receive 0 sent_to_two) (up ∷ []) (up ∷ [])
unfolding channel_at
ordered_run =
    takes waiting up []
      (sends (bytes "up") (bytes "now") (another_begins (begins new_broker refl)) (λ ch e. tt)
        sends_up)
      refl refl

Heard-ordered_example :
    (ch : Channel) × (channel_at 0 (receive 0 sent_to_two).channels ≡ some ch)
    × Sublist ((up ∷ []) ++ ch.buffer) (up ∷ [])
Heard-ordered_example = Heard-ordered 0 (receive 0 sent_to_two) (up ∷ []) (up ∷ []) ordered_run

abbrev fresh_channel : Channel
fresh_channel = record { buffer = []; closed = false; registered = true }

has_room : (ch : Channel) → some fresh_channel ≡ some ch → HasRoom ch.buffer
has_room ch e = subst (λ c. HasRoom c.buffer) (some-injective fresh_channel ch e) refl

complete_run : Heard HasRoom 0 (receive 0 sent_to_two) (up ∷ []) (up ∷ [])
unfolding channel_at subscribe
complete_run =
    takes waiting up []
      (sends (bytes "up") (bytes "now") (another_begins (begins new_broker refl)) has_room sends_up)
      refl refl

Heard-complete_example :
    (ch : Channel) × (channel_at 0 (receive 0 sent_to_two).channels ≡ some ch)
    × ((up ∷ []) ++ ch.buffer ≡ up ∷ [])
Heard-complete_example = Heard-complete 0 (receive 0 sent_to_two) (up ∷ []) (up ∷ []) complete_run

two-Reachable : Reachable two
two-Reachable = steps (steps starts (subscribes new_broker)) (subscribes (subscribe new_broker).1)

stop_broker-closes_example :
    (d : Broker) × (stop_broker two ≡ ok d)
    × ((i : ℕ) (ch : Channel)
        → channel_at i two.channels ≡ some ch
        → ch.registered ≡ true
        → channel_at i d.channels ≡ some (closed_channel ch))
    × All IsShut d.channels
    × (stop_broker d ≡ panic)
unfolding subscribe
stop_broker-closes_example = stop_broker-closes two two-Reachable refl

abbrev stopped : Broker
stopped = record { channels = []; stopped = true }

subscribe-never_closed_example :
    (ch : Channel) × (channel_at (subscribe stopped).0 (subscribe (subscribe stopped).1).1.channels
      ≡ some ch)
    × (ch.closed ≡ false)
subscribe-never_closed_example =
    subscribe-never_closed stopped (subscribe (subscribe stopped).1).1 refl
      (and_then_step at_once (subscribes (subscribe stopped).1))
