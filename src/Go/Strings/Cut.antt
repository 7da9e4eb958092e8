-- ===== src/Go/Strings/Cut.antt =====
-- Prefixes, splitting at a byte, and joining.
use Prim.Native.Nat.{ℕ, zero, suc}
use wingstation.Prelude.{
  ◌∙◌, ap, ap₂, sym, ==_iff, Str, str_eq, true, false, List, [], ◌∷◌, ◌++◌, ◌≡◌, ◌≢◌, refl, ◌==◌,
  ◌&&◌, arith, All, length, drop, any, Bool-cases, inl, inr,
}
use wingstation.Go.Strings.{
  has_prefix, trim_prefix, contains_byte, before_first, before_last, split, split_n, extend, join,
}

-- No byte of the text is `b`.
abbrev pub Lacks : ℕ → Str → Type 0
Lacks b = All (λ c. c ≢ b)

pub has_prefix-append : (p s : Str) → has_prefix (p ++ s) p ≡ true
unfolding has_prefix
has_prefix-append [] s = refl
has_prefix-append (c ∷ p) s = ground (arith, has_prefix-append p s)

pub drop-append : (p s : Str) → drop (length p) (p ++ s) ≡ s
drop-append [] s = refl
drop-append (c ∷ p) s = drop-append p s

pub trim_prefix-append : (p s : Str) → trim_prefix (p ++ s) p ≡ s
unfolding trim_prefix
trim_prefix-append p s = rw (has_prefix-append p s) (drop-append p s)

-- The test of a prefix and of what follows it is one comparison.
pub prefix_then_eq :
    (k p n : Str) → (has_prefix k p && str_eq (drop (length p) k) n) ≡ str_eq k (p ++ n)
unfolding has_prefix str_eq
prefix_then_eq k [] n = refl
prefix_then_eq [] (c ∷ p) n = refl
prefix_then_eq (d ∷ k) (c ∷ p) n = ground (arith, prefix_then_eq k p n)

extend-All : (b c : ℕ) (ps : List Str) → c ≢ b → All (Lacks b) ps → All (Lacks b) (extend c ps)
extend-All b c [] n h = ((n, tt), tt)
extend-All b c (p ∷ ps) n (hp, h) = ((n, hp), h)

-- No part of a split holds the separator.
pub split-Lacks : (b : ℕ) (s : Str) → All (Lacks b) (split b s)
unfolding split
split-Lacks b [] = (tt, tt)
split-Lacks b (c ∷ s) = ground (arith, split-Lacks b s, extend-All b c (split b s))

pub before_first-Lacks : (b : ℕ) (s : Str) → Lacks b s → before_first b s ≡ s
unfolding before_first
before_first-Lacks b [] h = refl
before_first-Lacks b (c ∷ s) (n, h) = ground (arith, before_first-Lacks b s h)

pub contains_byte-Lacks : (b : ℕ) (s : Str) → Lacks b s → contains_byte s b ≡ false
unfolding any
contains_byte-Lacks b [] h = refl
contains_byte-Lacks b (c ∷ s) (n, h) = ground (arith, contains_byte-Lacks b s h)

pub before_last-Lacks : (b : ℕ) (s : Str) → Lacks b s → before_last b s ≡ s
unfolding before_last
before_last-Lacks b [] h = refl
before_last-Lacks b (c ∷ s) (n, h) = ground (arith, contains_byte-Lacks b s h)

pub contains_byte-middle : (b : ℕ) (s t : Str) → contains_byte (s ++ b ∷ t) b ≡ true
unfolding any
contains_byte-middle b [] t = ground arith
contains_byte-middle b (c ∷ s) t = ground (arith, contains_byte-middle b s t)

-- What stands before the last separator.
pub before_last-append : (b : ℕ) (s t : Str) → Lacks b t → before_last b (s ++ b ∷ t) ≡ s
unfolding before_last
before_last-append b [] t h = ground (arith, contains_byte-Lacks b t h)
before_last-append b (c ∷ s) t h =
    ground (arith, contains_byte-middle b s t, before_last-append b s t h)

-- What stands before the first separator.
pub before_first-append : (b : ℕ) (s t : Str) → Lacks b s → before_first b (s ++ b ∷ t) ≡ s
unfolding before_first
before_first-append b [] t h = ground arith
before_first-append b (c ∷ s) t (n, h) = ground (arith, before_first-append b s t h)

module _ {ℓ} (P : ℕ → Type ℓ) where
  All-extend : (c : ℕ) (ps : List Str) → P c → All (All P) ps → All (All P) (extend c ps)
  All-extend c [] p h = ((p, tt), tt)
  All-extend c (q ∷ ps) p (hq, h) = ((p, hq), h)

  -- The parts hold nothing new.
  pub split-All : (b : ℕ) (s : Str) → All P s → All (All P) (split b s)
  unfolding split
  split-All b [] h = (tt, tt)
  split-All b (c ∷ s) (p, h) = elim (Bool-cases (c == b)) [
    | inl e ↦ rw e (tt, split-All b s h)
    | inr e ↦ rw e (All-extend c (split b s) p (split-All b s h))
  ]

split_at_sep : (b : ℕ) (s : Str) → split b (b ∷ s) ≡ [] ∷ split b s
unfolding split
split_at_sep b s = ground arith

split-Lacks_append : (b : ℕ) (p s : Str) → Lacks b p → split b (p ++ b ∷ s) ≡ p ∷ split b s
unfolding split
split-Lacks_append b [] s h = split_at_sep b s
split-Lacks_append b (c ∷ p) s (n, h) = ground (arith, split-Lacks_append b p s h)

split_of_Lacks : (b : ℕ) (p : Str) → Lacks b p → split b p ≡ p ∷ []
unfolding split
split_of_Lacks b [] h = refl
split_of_Lacks b (c ∷ p) (n, h) = ground (arith, split_of_Lacks b p h)

-- Splitting what was joined gives the parts back, if there is one and none holds the separator.
pub split-join :
    (b : ℕ) (p : Str) (ps : List Str)
    → All (Lacks b) (p ∷ ps)
    → split b (join (b ∷ []) (p ∷ ps)) ≡ p ∷ ps
unfolding join
split-join b p [] (h, _) = split_of_Lacks b p h
split-join b p (q ∷ ps) (h, hs) = rw (split-Lacks_append b p _ h, split-join b q ps hs)

pub split_n-append :
    (b n : ℕ) (p s : Str) → Lacks b p → split_n b (suc n) (p ++ b ∷ s) ≡ p ∷ split_n b n s
unfolding split_n
split_n-append b n [] s h = ground arith
split_n-append b n (c ∷ p) s (m, h) = ground (arith, split_n-append b n p s h)

pub split_n_of_Lacks : (b n : ℕ) (p : Str) → Lacks b p → split_n b n p ≡ p ∷ []
unfolding split_n
split_n_of_Lacks b n [] h = refl
split_n_of_Lacks b zero (c ∷ p) h = refl
split_n_of_Lacks b (suc n) (c ∷ p) (m, h) = ground (arith, split_n_of_Lacks b (suc n) p h)

-- No prefix brings a byte that the text lacks.
pub has_prefix-Lacks : (b : ℕ) (s p q : Str) → Lacks b s → has_prefix s (p ++ b ∷ q) ≡ false
unfolding has_prefix
has_prefix-Lacks b [] [] q h = refl
has_prefix-Lacks b [] (d ∷ p) q h = refl
has_prefix-Lacks b (c ∷ s) [] q (n, h) = ground arith
has_prefix-Lacks b (c ∷ s) (d ∷ p) q (n, h) = ground (arith, has_prefix-Lacks b s p q h)

pub trim_prefix-Lacks : (b : ℕ) (s p q : Str) → Lacks b s → trim_prefix s (p ++ b ∷ q) ≡ s
unfolding trim_prefix
trim_prefix-Lacks b s p q h = rw (has_prefix-Lacks b s p q h)

-- At most one cut: at the first separator.
pub split_n-once : (b : ℕ) (k v : Str) → Lacks b k → split_n b 1 (k ++ b ∷ v) ≡ k ∷ v ∷ []
unfolding split_n
split_n-once b [] [] h = ground arith
split_n-once b [] (c ∷ v) h = ground arith
split_n-once b (c ∷ k) v (n, h) = ground (arith, split_n-once b k v h)

extend-nonempty : (c : ℕ) (ps : List Str) → extend c ps ≢ []
extend-nonempty c [] = λ p. cc
extend-nonempty c (p ∷ ps) = λ p. cc

pub split-nonempty : (b : ℕ) (s : Str) → split b s ≢ []
unfolding split
split-nonempty b [] = λ p. cc
split-nonempty b (c ∷ s) = elim (Bool-cases (c == b)) [
  | inl here ↦ rw here (λ p. cc)
  | inr past ↦ rw past (extend-nonempty c (split b s))
]

join-nil : (b : ℕ) (ps : List Str) → ps ≢ [] → join (b ∷ []) ([] ∷ ps) ≡ b ∷ join (b ∷ []) ps
unfolding join
join-nil b [] n = absurd (n refl)
join-nil b (p ∷ ps) n = refl

join-extend : (b c : ℕ) (ps : List Str) → join (b ∷ []) (extend c ps) ≡ c ∷ join (b ∷ []) ps
unfolding join
join-extend b c [] = refl
join-extend b c (p ∷ []) = refl
join-extend b c (p ∷ q ∷ ps) = refl

-- Joining the parts of a split at its separator gives the text back.
pub join-split : (b : ℕ) (s : Str) → join (b ∷ []) (split b s) ≡ s
unfolding split join
join-split b [] = refl
join-split b (c ∷ s) = elim (Bool-cases (c == b)) [
  | inl here ↦ rw here (
      join-nil b (split b s) (split-nonempty b s)
      ∙ ap₂ ◌∷◌ (sym ((==_iff c b).0 here)) (join-split b s))
  | inr past ↦ rw past (join-extend b c (split b s) ∙ ap (c ∷◌) (join-split b s))
]
