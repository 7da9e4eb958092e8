-- ===== src/Server/Broker/Late.antt =====
-- A stream that begins after the broker's stop (internal/server/sse.go).
use mathlib.Core.Option.{some-injective}
use wingstation.Prelude.{
  Str, Bool, true, false, List, [], ◌∷◌, ◌++◌, some, ◌≡◌, refl, ap, ◌∙◌, sym, subst, length, ℕ,
  zero, suc, if◌then◌else◌, ltb,
}
use wingstation.Go.Result.{ok, panic, and_then-ok, ok-injective}
use wingstation.Server.Events.{event_text}
use wingstation.Server.Broker.{
  Channel, Broker, new_channel, at_place, capacity, subscribe, unsubscribe, each, deliver,
  broadcast, receive, without_first,
}
use wingstation.Server.Broker.Places.{
  channel_at, channel_at-last, channel_at-append, channel_at-each,
}
use wingstation.Server.Broker.Reach.{
  Step, subscribes, unsubscribes, broadcasts, stops, receives, stopped-panics,
}

pub broadcast-stopped :
    (name payload : Str) (b d : Broker) → broadcast name payload b ≡ ok d → d.stopped ≡ b.stopped
unfolding broadcast
broadcast-stopped name payload b d h =
    let (chs, _, e) =
      and_then-ok (each (deliver (event_text name payload)) b.channels) _ (λ e. e) d h in
    ap (λ x. x.stopped) (sym (ok-injective (record b { channels = chs }) d e))

-- The steps of the broker from one state to another.
pub data Later (b : Broker) : Broker → Type 0 where
  at_once : Later b b
  and_then_step : {c d : Broker} → Later b c → Step c d → Later b d

at_place-closed :
    (f : Channel → Channel)
    → ((ch : Channel) → (f ch).closed ≡ ch.closed)
    → (i j : ℕ) (chs : List Channel) (ch : Channel) → channel_at i chs ≡ some ch
    → (d : Channel) × (channel_at i (at_place j f chs) ≡ some d) × (d.closed ≡ ch.closed)
unfolding channel_at at_place
at_place-closed f k i j [] ch h = cc
at_place-closed f k zero zero (y ∷ chs) ch h =
    (f y, refl, k y ∙ ap (λ x. x.closed) (some-injective y ch h))
at_place-closed f k zero (suc j) (y ∷ chs) ch h = (ch, h, refl)
at_place-closed f k (suc i) zero (y ∷ chs) ch h = (ch, h, refl)
at_place-closed f k (suc i) (suc j) (y ∷ chs) ch h = at_place-closed f k i j chs ch h

deliver-closed : (m : Str) (ch d : Channel) → deliver m ch ≡ ok d → d.closed ≡ ch.closed
unfolding deliver
deliver-closed m ch d h = by_flags ch.registered ch.closed (ltb (length ch.buffer) capacity) refl h
  where
    more : Channel
    more = record ch { buffer = ch.buffer ++ m ∷ [] }

    by_flags :
        (r c room : Bool)
        → ch.closed ≡ c
        → (if r then if c then panic else if room then ok more else ok ch else ok ch) ≡ ok d
        → d.closed ≡ ch.closed
    by_flags false c room e h = ap (λ x. x.closed) (sym (ok-injective ch d h))
    by_flags true true room e h = cc
    by_flags true false true e h = ap (λ x. x.closed) (sym (ok-injective more d h))
    by_flags true false false e h = ap (λ x. x.closed) (sym (ok-injective ch d h))

-- The stream at the place is open, in a broker that is stopped.
abbrev IsLate : ℕ → Broker → Type 0
IsLate i b =
    (b.stopped ≡ true)
    × ((ch : Channel) × (channel_at i b.channels ≡ some ch) × (ch.closed ≡ false))

at_place-IsLate :
    (f : Channel → Channel)
    → ((ch : Channel) → (f ch).closed ≡ ch.closed)
    → (i j : ℕ) (b : Broker) → IsLate i b
    → IsLate i (record b { channels = at_place j f b.channels })
at_place-IsLate f k i j b (stopped, (ch, found, o)) =
    let (d, at, same) = at_place-closed f k i j b.channels ch found in (stopped, (d, at, same ∙ o))

Step-IsLate : {b d : Broker} (i : ℕ) → Step b d → IsLate i b → IsLate i d
unfolding subscribe unsubscribe receive broadcast
Step-IsLate i (subscribes b) (stopped, (ch, found, o)) =
    (stopped, (ch, channel_at-append ch new_channel i b.channels found, o))
Step-IsLate i (unsubscribes b j) l = at_place-IsLate _ (λ ch. refl) i j b l
Step-IsLate i (broadcasts b d name payload e) (stopped, (ch, found, o)) =
    let msg = event_text name payload in
    let (chs, all, same) = and_then-ok (each (deliver msg) b.channels) _ (λ e. e) d e in
    let (c, one, at) = channel_at-each (deliver msg) i b.channels chs ch all found in
    (
      broadcast-stopped name payload b d e ∙ stopped,
      (
        c,
        subst (λ x. channel_at i x.channels ≡ some c)
            (ok-injective (record b { channels = chs }) d same) at,
        deliver-closed msg ch c one ∙ o,
      ),
    )
Step-IsLate i (stops b d e) (stopped, _) = absurd (stopped-panics b d stopped e)
Step-IsLate i (receives b j) l = at_place-IsLate without_first (λ ch. refl) i j b l

Later-IsLate : {b d : Broker} (i : ℕ) → Later b d → IsLate i b → IsLate i d
Later-IsLate i at_once l = l
Later-IsLate i (and_then_step r s) l = Step-IsLate i s (Later-IsLate i r l)

-- A stream that begins after the broker's stop is not ended by it: whatever the broker does from
-- then on, the stream's channel is there and is never closed.
pub subscribe-never_closed :
    (b d : Broker)
    → b.stopped ≡ true
    → Later (subscribe b).1 d
    → (ch : Channel) × (channel_at (subscribe b).0 d.channels ≡ some ch) × (ch.closed ≡ false)
unfolding subscribe
subscribe-never_closed b d stopped r =
    (Later-IsLate (length b.channels) r
      (stopped, (new_channel, channel_at-last new_channel new_channel b.channels, refl))).1
