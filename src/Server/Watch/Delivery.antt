-- ===== src/Server/Watch/Delivery.antt =====
-- What a broadcast of the event goroutine (internal/server/sse.go) puts into a stream's channel.
use wingstation.Prelude.{
  Str, bytes, str_eq, Bool, true, false, not, List, [], ◌∷◌, ◌++◌, some, ◌≡◌, refl, sym, ap, ◌∙◌,
  subst, All, length, ltb, ℕ, zero, suc, append-nil, if◌then◌else◌,
}
use mathlib.Core.Option.{some-injective}
use wingstation.Go.Result.{Result, ok, err, and_then, and_then-ok, ok-injective}
use wingstation.Server.Events.{event_text}
use wingstation.Server.Broker.{Channel, Broker, capacity, each, deliver, broadcast}
use wingstation.Server.Broker.Places.{channel_at, channel_at-each}
use wingstation.Server.Broker.Fifo.{queued, delivered}
use wingstation.Server.Site.{Site}
use wingstation.Server.Watch.{Hub, DockerMessage, update_text, hub_broadcast, targeted_update}

pub channel_at-All :
    (P : Channel → Type 0) (i : ℕ) (chs : List Channel) (ch : Channel)
    → All P chs
    → channel_at i chs ≡ some ch
    → P ch
unfolding channel_at
channel_at-All P i [] ch h e = cc
channel_at-All P zero (y ∷ chs) ch (p, h) e = subst P (some-injective y ch e) p
channel_at-All P (suc i) (y ∷ chs) ch (p, h) e = channel_at-All P i chs ch h e

-- The channel at the place is in the map and open, and its messages are these.
pub record Waits (i : ℕ) (b : Broker) (messages : List Str) : Type 0 where
  pub channel : Channel
  pub found : channel_at i b.channels ≡ some channel
  pub registered : channel.registered ≡ true
  pub is_open : channel.closed ≡ false
  pub waiting : channel.buffer ≡ messages

module _ (i : ℕ) where
  -- A broadcast on the hub, to the channel at the place.
  hub_broadcast-each :
      (name payload : Str) (h d : Hub) (ch : Channel)
      → hub_broadcast name payload h ≡ ok d
      → channel_at i h.broker.channels ≡ some ch
      → (c : Channel) × (deliver (event_text name payload) ch ≡ ok c)
        × (channel_at i d.broker.channels ≡ some c)
  unfolding broadcast
  hub_broadcast-each name payload h d ch e found =
      let msg = event_text name payload in
      let (b, sent, same) = and_then-ok (broadcast name payload h.broker) _ (λ e. e) d e in
      let (chs, all, made) = and_then-ok (each (deliver msg) h.broker.channels) _ (λ e. e) b sent in
      let (c, one, at) = channel_at-each (deliver msg) i h.broker.channels chs ch all found in
      (
        c,
        one,
        subst (λ x. channel_at i x.channels ≡ some c)
            (ok-injective (record h.broker { channels = chs }) b made
              ∙ ap (λ x. x.broker) (ok-injective (record h { broker = b }) d same))
            at,
      )

  -- With room, the message is added.
  pub hub_broadcast-Waits :
      (name payload : Str) (h d : Hub) (messages : List Str)
      → hub_broadcast name payload h ≡ ok d
      → Waits i h.broker messages
      → ltb (length messages) capacity ≡ true
      → Waits i d.broker (messages ++ event_text name payload ∷ [])
  hub_broadcast-Waits name payload h d messages e w room =
      let msg = event_text name payload in
      let (c, one, at) = hub_broadcast-each name payload h d w.channel e w.found in
      let fits = ap (λ l. ltb (length l) capacity) w.waiting ∙ room in
      let same =
        ap (λ b. if b then ok (queued w.channel msg) else ok w.channel) (sym fits)
        ∙ sym (delivered msg w.channel w.registered w.is_open)
        ∙ one in
      record {
        channel = queued w.channel msg;
        found = at ∙ ap some (sym (ok-injective (queued w.channel msg) c same));
        registered = w.registered;
        is_open = w.is_open;
        waiting = ap (λ l. l ++ msg ∷ []) w.waiting;
      }

  -- Without room, the channel stays as it is.
  hub_broadcast-full :
      (name payload : Str) (h d : Hub) (messages : List Str)
      → hub_broadcast name payload h ≡ ok d
      → Waits i h.broker messages
      → ltb (length messages) capacity ≡ false
      → Waits i d.broker messages
  hub_broadcast-full name payload h d messages e w full =
      let msg = event_text name payload in
      let (c, one, at) = hub_broadcast-each name payload h d w.channel e w.found in
      let fits = ap (λ l. ltb (length l) capacity) w.waiting ∙ full in
      let same =
        ap (λ b. if b then ok (queued w.channel msg) else ok w.channel) (sym fits)
        ∙ sym (delivered msg w.channel w.registered w.is_open)
        ∙ one in
      record {
        channel = w.channel;
        found = at ∙ ap some (sym (ok-injective w.channel c same));
        registered = w.registered;
        is_open = w.is_open;
        waiting = w.waiting;
      }

  unchanged : (b d : Broker) (messages : List Str) → b ≡ d → Waits i b messages → Waits i d messages
  unchanged b d messages e w = subst (λ x. Waits i x messages) e w

  -- What waits stays first.
  abbrev pub StillWaits : Broker → List Str → Type 0
  StillWaits b messages = (rest : List Str) × Waits i b (messages ++ rest)

  targeted_update-StillWaits :
      (s : Site) (m : DockerMessage) (h d : Hub) (messages : List Str)
      → targeted_update s m h ≡ ok d
      → Waits i h.broker messages
      → StillWaits d.broker messages
  unfolding targeted_update
  targeted_update-StillWaits s m h d messages e w =
      by_id (not (str_eq m.actor_id [])) (ltb (length messages) capacity) refl e
    where
      sent : Result Hub
      sent = hub_broadcast (bytes "container-update") (update_text m) h

      by_id :
          (named room : Bool)
          → ltb (length messages) capacity ≡ room
          → (if named then sent else ok h) ≡ ok d
          → StillWaits d.broker messages
      by_id true true r e =
          (_, hub_broadcast-Waits (bytes "container-update") (update_text m) h d messages e w r)
      by_id true false r e = (
        [],
        subst (Waits i d.broker) (sym (append-nil messages))
            (hub_broadcast-full (bytes "container-update") (update_text m) h d messages e w r),
      )
      by_id false room r e = (
        [],
        subst (Waits i d.broker) (sym (append-nil messages))
            (unchanged h.broker d.broker messages (ap (λ x. x.broker) (ok-injective h d e)) w),
      )

  -- The broadcast of a Docker event, with the update that follows it.
  pub then_update :
      (s : Site) (m : DockerMessage) (payload : Str) (h d : Hub) (messages : List Str)
      → and_then (hub_broadcast (bytes "containers") payload h) (targeted_update s m) err ≡ ok d
      → Waits i h.broker messages
      → ltb (length messages) capacity ≡ true
      → StillWaits d.broker (messages ++ event_text (bytes "containers") payload ∷ [])
  then_update s m payload h d messages e w room =
      let (k, sent, more) =
        and_then-ok (hub_broadcast (bytes "containers") payload h) _ (λ e. e) d e in
      targeted_update-StillWaits s m k d _ more
        (hub_broadcast-Waits (bytes "containers") payload h k messages sent w room)
