-- ===== src/Server/Broker/Heard.antt =====
-- What a stream (internal/server/sse.go) takes of what is broadcast while it is there.
use mathlib.Core.List.{Sublist, sublist-append_left}
use mathlib.Core.List.Sublist
use wingstation.Prelude.{
  Str, true, some, List, [], ◌∷◌, ◌++◌, ◌≡◌, refl, ap, length, ltb, not_both, ℕ,
}
use wingstation.Server.Broker.{Broker, Channel, capacity}
use wingstation.Server.Broker.Places.{channel_at}
use wingstation.Server.Broker.Fifo.{Heard, Follows, Heard-HasQueue}

-- Any queue, and one with room for one more.
abbrev pub AnyRoom : List Str → Type 0
AnyRoom buffer = Unit

abbrev pub HasRoom : List Str → Type 0
HasRoom buffer = ltb (length buffer) capacity ≡ true

sublist_follows : Follows AnyRoom Sublist
sublist_follows = record {
  nothing = Sublist.refl [];
  one_more = λ x s m h. Sublist.append h (Sublist.refl (m ∷ []));
  one_lost = λ buffer room full x s m h. Sublist.trans h (sublist-append_left s (m ∷ []));
}

equal_follows : Follows HasRoom ◌≡◌
equal_follows = record {
  nothing = refl;
  one_more = λ x s m h. ap (λ l. l ++ m ∷ []) h;
  one_lost = λ buffer room full x s m h. absurd (not_both _ room full);
}

module _ (i : ℕ) (b : Broker) (sent got : List Str) where
  -- A stream takes messages in the order in which they are broadcast, and none twice: what it has
  -- taken, and what waits in its channel, are among the messages broadcast since its start,
  -- whatever the other streams do and however slowly it reads.
  pub Heard-ordered :
      Heard AnyRoom i b sent got
      → (ch : Channel) × (channel_at i b.channels ≡ some ch) × Sublist (got ++ ch.buffer) sent
  Heard-ordered h =
      let q = Heard-HasQueue AnyRoom Sublist sublist_follows i h in (q.channel, q.found, q.holds)

  -- A stream that keeps up misses nothing: if fewer than sixteen messages wait in its channel
  -- whenever there is a broadcast, what it has taken, and then what waits, are all the messages
  -- broadcast since its start, in their order, whatever the other streams do.
  pub Heard-complete :
      Heard HasRoom i b sent got
      → (ch : Channel) × (channel_at i b.channels ≡ some ch) × (got ++ ch.buffer ≡ sent)
  Heard-complete h =
      let q = Heard-HasQueue HasRoom ◌≡◌ equal_follows i h in (q.channel, q.found, q.holds)
