-- ===== src/Server/Broker/Places.antt =====
-- The channel at a place of the broker's list (internal/server/sse.go), and what the methods do to
-- it.
use wingstation.Prelude.{
  List, [], ◌∷◌, ◌++◌, Option, none, some, ◌≡◌, ◌≢◌, refl, ap, ◌∙◌, subst, sym, length, ℕ, zero,
  suc,
}
use mathlib.Core.Option.{some-injective}
use wingstation.Go.Result.{Result, ok, and_then-ok, ok-injective}
use wingstation.Server.Broker.{Channel, at_place, each}

unfoldable pub channel_at : ℕ → List Channel → Option Channel
channel_at i [] = none
channel_at zero (ch ∷ chs) = some ch
channel_at (suc i) (ch ∷ chs) = channel_at i chs

module _ (ch x : Channel) where
  pub channel_at-last : (chs : List Channel) → channel_at (length chs) (chs ++ ch ∷ []) ≡ some ch
  unfolding channel_at
  channel_at-last [] = refl
  channel_at-last (y ∷ chs) = channel_at-last chs

  pub channel_at-append :
      (i : ℕ) (chs : List Channel)
      → channel_at i chs ≡ some ch
      → channel_at i (chs ++ x ∷ []) ≡ some ch
  unfolding channel_at
  channel_at-append i [] h = cc
  channel_at-append zero (y ∷ chs) h = h
  channel_at-append (suc i) (y ∷ chs) h = channel_at-append i chs h

module _ (f : Channel → Channel) where
  pub channel_at-at_place :
      (i : ℕ) (chs : List Channel) (ch : Channel)
      → channel_at i chs ≡ some ch
      → channel_at i (at_place i f chs) ≡ some (f ch)
  unfolding channel_at at_place
  channel_at-at_place i [] ch h = cc
  channel_at-at_place zero (y ∷ chs) ch h = ap some (ap f cc)
  channel_at-at_place (suc i) (y ∷ chs) ch h = channel_at-at_place i chs ch h

  pub channel_at-other :
      (i j : ℕ) (chs : List Channel) → i ≢ j → channel_at i (at_place j f chs) ≡ channel_at i chs
  unfolding channel_at at_place
  channel_at-other i j [] n = refl
  channel_at-other zero zero (y ∷ chs) n = absurd (n refl)
  channel_at-other zero (suc j) (y ∷ chs) n = refl
  channel_at-other (suc i) zero (y ∷ chs) n = refl
  channel_at-other (suc i) (suc j) (y ∷ chs) n = channel_at-other i j chs (λ e. n (ap suc e))

-- What is done to all channels is done to that of a place.
pub channel_at-each :
    (f : Channel → Result Channel) (i : ℕ) (chs ds : List Channel) (ch : Channel)
    → each f chs ≡ ok ds
    → channel_at i chs ≡ some ch
    → (d : Channel) × (f ch ≡ ok d) × (channel_at i ds ≡ some d)
unfolding channel_at each
channel_at-each f i [] ds ch e h = cc
channel_at-each f zero (y ∷ chs) ds ch e h =
    let (d, g, rest) = and_then-ok (f y) _ (λ e. e) ds e in
    let (cs, _, same) = and_then-ok (each f chs) _ (λ e. e) ds rest in
    let made = ok-injective (d ∷ cs) ds same in
    (d, ap f (sym (some-injective y ch h)) ∙ g, subst (λ l. channel_at zero l ≡ some d) made refl)
channel_at-each f (suc i) (y ∷ chs) ds ch e h =
    let (d, _, rest) = and_then-ok (f y) _ (λ e. e) ds e in
    let (cs, k, same) = and_then-ok (each f chs) _ (λ e. e) ds rest in
    let (c, g, found) = channel_at-each f i chs cs ch k h in
    (c, g, subst (λ l. channel_at (suc i) l ≡ some c) (ok-injective (d ∷ cs) ds same) found)
