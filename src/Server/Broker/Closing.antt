-- ===== src/Server/Broker/Closing.antt =====
-- What the broker's stop (internal/server/sse.go) does to the streams.
use wingstation.Prelude.{Bool, true, false, some, ◌≡◌, ap, ◌∙◌, sym, ℕ, All, if◌then◌else◌}
use wingstation.Go.Result.{ok, panic, and_then-ok, ok-injective}
use wingstation.Server.Broker.{Channel, Broker, each, shut, stop_broker}
use wingstation.Server.Broker.Places.{channel_at, channel_at-each}
use wingstation.Server.Broker.Reach.{Reachable, IsShut, stop_broker_correct}

-- A channel as a stop leaves it: the messages that wait are still there.
abbrev pub closed_channel : Channel → Channel
closed_channel ch = record ch { closed = true; registered = false }

shut-registered : (ch d : Channel) → ch.registered ≡ true → shut ch ≡ ok d → d ≡ closed_channel ch
unfolding shut
shut-registered ch d r h = of_closed ch.closed (rw r at h)
  where
    of_closed :
        (b : Bool) → (if b then panic else ok (closed_channel ch)) ≡ ok d → d ≡ closed_channel ch
    of_closed true e = cc
    of_closed false e = sym (ok-injective _ d e)

module _ (b d : Broker) where
  -- The channels after a stop that succeeds.
  stop_broker-each :
      b.stopped ≡ false
      → stop_broker b ≡ ok d
      → (each shut b.channels ≡ ok d.channels) × (d.stopped ≡ true)
  unfolding stop_broker
  stop_broker-each running h =
      let (chs, all, same) = and_then-ok (each shut b.channels) _ (λ e. e) d (rw running at h) in
      let made = ok-injective (record { channels = chs; stopped = true }) d same in
      (all ∙ ap (λ x. ok x.channels) made, sym (ap (λ x. x.stopped) made))

  -- Each stream that is there gets a closed channel.
  stop_broker-closed :
      b.stopped ≡ false
      → stop_broker b ≡ ok d
      → (i : ℕ) (ch : Channel) → channel_at i b.channels ≡ some ch
      → ch.registered ≡ true
      → channel_at i d.channels ≡ some (closed_channel ch)
  stop_broker-closed running h i ch found registered =
      let (all, _) = stop_broker-each running h in
      let (c, e, at) = channel_at-each shut i b.channels d.channels ch all found in
      at ∙ ap some (shut-registered ch c registered e)

-- At every moment of a run a broker that is not stopped can be stopped: no close hits a closed
-- channel. Each stream that is there finds its channel closed, behind the messages that wait in it,
-- and no channel is left in the map. To stop the broker once more panics.
pub stop_broker-closes :
    (b : Broker)
    → Reachable b
    → b.stopped ≡ false
    → (d : Broker) × (stop_broker b ≡ ok d)
      × ((i : ℕ) (ch : Channel)
          → channel_at i b.channels ≡ some ch
          → ch.registered ≡ true
          → channel_at i d.channels ≡ some (closed_channel ch))
      × All IsShut d.channels
      × (stop_broker d ≡ panic)
stop_broker-closes b r running =
    let (d, e, unlisted, twice) = stop_broker_correct b r running in
    (d, e, stop_broker-closed b d running e, unlisted, twice)
