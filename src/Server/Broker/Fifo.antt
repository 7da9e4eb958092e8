-- ===== src/Server/Broker/Fifo.antt =====
-- The channel of one stream (internal/server/sse.go) as a queue, whatever the other streams do.
use mathlib.Core.Option.{some-injective}
use wingstation.Prelude.{
  Str, Bool, true, false, List, [], ◌∷◌, ◌++◌, some, ◌≡◌, ◌≢◌, refl, ap, ◌∙◌, subst, sym, length, ℕ,
  ltb, append_assoc, if◌then◌else◌,
}
use wingstation.Go.Result.{ok, and_then-ok, ok-injective}
use wingstation.Server.Events.{event_text}
use wingstation.Server.Broker.{
  Channel, Broker, capacity, new_channel, subscribe, unsubscribe, each, deliver, broadcast, receive,
  without_first,
}
use wingstation.Server.Broker.Places.{
  channel_at, channel_at-last, channel_at-append, channel_at-at_place, channel_at-other,
  channel_at-each,
}

-- A run of the broker from the start of the stream at the place `i` on, up to the stream's end or
-- the broker's stop: what was broadcast meanwhile and what the stream has taken. At each broadcast
-- the queue of the stream is as `Room` says.
pub data Heard (Room : List Str → Type 0) (i : ℕ) : Broker → List Str → List Str → Type 0 where
  begins : (b : Broker) → i ≡ length b.channels → Heard Room i (subscribe b).1 [] []
  sends :
      {b d : Broker} {sent got : List Str} (name payload : Str)
      → Heard Room i b sent got
      → ((ch : Channel) → channel_at i b.channels ≡ some ch → Room ch.buffer)
      → broadcast name payload b ≡ ok d
      → Heard Room i d (sent ++ event_text name payload ∷ []) got
  takes :
      {b : Broker} {sent got : List Str} (ch : Channel) (m : Str) (ms : List Str)
      → Heard Room i b sent got
      → channel_at i b.channels ≡ some ch
      → ch.buffer ≡ m ∷ ms
      → Heard Room i (receive i b) sent (got ++ m ∷ [])
  another_begins :
      {b : Broker} {sent got : List Str}
      → Heard Room i b sent got
      → Heard Room i (subscribe b).1 sent got
  another_ends :
      {b : Broker} {sent got : List Str} (j : ℕ)
      → i ≢ j
      → Heard Room i b sent got
      → Heard Room i (unsubscribe j b) sent got
  another_takes :
      {b : Broker} {sent got : List Str} (j : ℕ)
      → i ≢ j
      → Heard Room i b sent got
      → Heard Room i (receive j b) sent got

-- The stream's channel is open and in the map, and what was taken, before what waits in it, stands
-- in the relation to what was sent.
pub record HasQueue (R : List Str → List Str → Type 0) (i : ℕ) (b : Broker) (sent got : List Str)
    : Type 0 where
  pub channel : Channel
  pub found : channel_at i b.channels ≡ some channel
  pub registered : channel.registered ≡ true
  pub is_open : channel.closed ≡ false
  pub holds : R (got ++ channel.buffer) sent

abbrev pub queued : Channel → Str → Channel
queued ch m = record ch { buffer = ch.buffer ++ m ∷ [] }

pub delivered :
    (m : Str) (ch : Channel)
    → ch.registered ≡ true
    → ch.closed ≡ false
    → deliver m ch ≡ (if ltb (length ch.buffer) capacity then ok (queued ch m) else ok ch)
unfolding deliver
delivered m ch r o = rw (r, o) refl

-- What a relation between the two must bear.
pub record Follows (Room : List Str → Type 0) (R : List Str → List Str → Type 0) : Type 0 where
  pub nothing : R [] []
  pub one_more : (x s : List Str) (m : Str) → R x s → R (x ++ m ∷ []) (s ++ m ∷ [])
  pub one_lost :
      (buffer : List Str)
      → Room buffer
      → ltb (length buffer) capacity ≡ false
      → (x s : List Str) (m : Str) → R x s
      → R x (s ++ m ∷ [])

module _ (Room : List Str → Type 0) (R : List Str → List Str → Type 0) (law : Follows Room R)
    (i : ℕ) where
  on_send :
      (d : Broker) (sent got : List Str) (m : Str) (ch c : Channel) (room : Bool)
      → ch.registered ≡ true
      → ch.closed ≡ false
      → Room ch.buffer
      → ltb (length ch.buffer) capacity ≡ room
      → R (got ++ ch.buffer) sent
      → channel_at i d.channels ≡ some c
      → (if room then ok (queued ch m) else ok ch) ≡ ok c
      → HasQueue R i d (sent ++ m ∷ []) got
  on_send d sent got m ch c true r o space full h f e = record {
    channel = queued ch m;
    found = f ∙ ap some (sym (ok-injective _ c e));
    registered = r;
    is_open = o;
    holds =
        subst (λ x. R x (sent ++ m ∷ [])) (append_assoc got ch.buffer (m ∷ []))
          (law.one_more _ sent m h);
  }
  on_send d sent got m ch c false r o space full h f e = record {
    channel = ch;
    found = f ∙ ap some (sym (ok-injective ch c e));
    registered = r;
    is_open = o;
    holds = law.one_lost ch.buffer space full _ sent m h;
  }

  on_take :
      (ch : Channel) (m : Str) (ms sent got : List Str)
      → ch.buffer ≡ m ∷ ms
      → R (got ++ ch.buffer) sent
      → R ((got ++ m ∷ []) ++ (without_first ch).buffer) sent
  on_take ch m ms sent got e h =
      subst (λ x. R x sent)
        (ap (got ++◌) e
          ∙ sym (append_assoc got (m ∷ []) ms)
          ∙ ap (λ l. (got ++ m ∷ []) ++ tail l) (sym e))
        h
    where
      tail : List Str → List Str
      tail l = elim l [ [] ↦ [] | x ∷ xs ↦ xs ]

  moved :
      {b : Broker} {sent got : List Str} (d : Broker) (q : HasQueue R i b sent got)
      → channel_at i d.channels ≡ some q.channel
      → HasQueue R i d sent got
  moved d q found = record {
    channel = q.channel;
    found = found;
    registered = q.registered;
    is_open = q.is_open;
    holds = q.holds;
  }

  pub Heard-HasQueue :
      {b : Broker} {sent got : List Str} → Heard Room i b sent got → HasQueue R i b sent got
  unfolding subscribe unsubscribe receive broadcast
  Heard-HasQueue (begins b e) = record {
    channel = new_channel;
    found =
        subst (λ j. channel_at j (b.channels ++ new_channel ∷ []) ≡ some new_channel) (sym e)
          (channel_at-last new_channel new_channel b.channels);
    registered = refl;
    is_open = refl;
    holds = law.nothing;
  }
  Heard-HasQueue (sends {b} {d} {sent} {got} name payload h room e) =
      let q = Heard-HasQueue h in
      let msg = event_text name payload in
      let (chs, all, same) = and_then-ok (each (deliver msg) b.channels) _ (λ e. e) d e in
      let (c, one, found) = channel_at-each (deliver msg) i b.channels chs q.channel all q.found in
      on_send d sent got msg q.channel c _ q.registered q.is_open (room q.channel q.found) refl
        q.holds
        (subst (λ x. channel_at i x.channels ≡ some c)
          (ok-injective (record b { channels = chs }) d same) found)
        (sym (delivered msg q.channel q.registered q.is_open) ∙ one)
  Heard-HasQueue (takes {b} {sent} {got} ch m ms h at e) =
      let q = Heard-HasQueue h in
      let same = some-injective q.channel ch (sym q.found ∙ at) in
      record {
        channel = without_first q.channel;
        found = channel_at-at_place without_first i b.channels q.channel q.found;
        registered = q.registered;
        is_open = q.is_open;
        holds = on_take q.channel m ms sent got (ap (λ x. x.buffer) same ∙ e) q.holds;
      }
  Heard-HasQueue (another_begins {b} h) =
      let q = Heard-HasQueue h in
      moved _ q (channel_at-append q.channel new_channel i b.channels q.found)
  Heard-HasQueue (another_ends {b} j n h) =
      let q = Heard-HasQueue h in moved _ q (channel_at-other _ i j b.channels n ∙ q.found)
  Heard-HasQueue (another_takes {b} j n h) =
      let q = Heard-HasQueue h in moved _ q (channel_at-other _ i j b.channels n ∙ q.found)
