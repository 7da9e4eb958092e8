-- ===== src/Prelude/Perm.antt =====
-- What all members satisfy, and what some member satisfies, under a rearrangement.
use mathlib.Core.List.{
  Perm, Permᴰ, Mem, mem-cons, mem-cons_self, mem-cons_of_mem, not-mem-nil, perm_append_comm,
}
use mathlib.Core.List.Perm
use mathlib.Core.Logic.Or
use mathlib.Core.Logic.{∥∥₁_elim}
use mathlib.Core.HLevel.{×_prop, Unit-prop}
use mathlib.Core.Path.{◌≡◌, refl, sym, ap, subst, subst₂, ◌∙◌}
use mathlib.Core.Bool.{Bool, true, false, ◌||◌}
use mathlib.Core.List.{List, [], ◌∷◌, ◌++◌, append_assoc}
use native.Mathlib.Omega.{arith}
use wingstation.Prelude.Tests.{if◌then◌else◌}
use wingstation.Prelude.Lists.{All, any, filter}

pub Bool-set : IsSet Bool
Bool-set = hlevel

module _ {ℓ κ} {A : Type ℓ} (P : A → Type κ) where
  All-permᴰ : {xs ys : List A} → Permᴰ xs ys → All P xs → All P ys
  All-permᴰ Permᴰ.nil h = tt
  All-permᴰ (Permᴰ.cons e p) (a, h) = (subst P e a, All-permᴰ p h)
  All-permᴰ (Permᴰ.swap e f) (a, (b, h)) = (subst P f b, (subst P e a, h))
  All-permᴰ (Permᴰ.trans p q) h = All-permᴰ q (All-permᴰ p h)

  module _ (prop : (x : A) → IsProp (P x)) where
    pub All-prop : (xs : List A) → IsProp (All P xs)
    All-prop [] = Unit-prop
    All-prop (x ∷ xs) = ×_prop (prop x) (All-prop xs)

    pub All-perm : {xs ys : List A} → Perm xs ys → All P xs → All P ys
    All-perm {ys} p h = ∥∥₁_elim p (All-prop ys) (λ d. All-permᴰ d h)

    -- Each member satisfies what all do.
    pub All-mem : (xs : List A) (x : A) → All P xs → Mem x xs → P x
    All-mem [] x h m = absurd (not-mem-nil m)
    All-mem (y ∷ xs) x (p, h) m =
        Or.elim (prop x) (mem-cons.0 m) (λ e. subst P (sym e) p) (λ n. All-mem xs x h n)

  pub All-of_mem : (xs : List A) → ((x : A) → Mem x xs → P x) → All P xs
  All-of_mem [] h = tt
  All-of_mem (x ∷ xs) h = (h x mem-cons_self, All-of_mem xs (λ y m. h y (mem-cons_of_mem x m)))

module _ {ℓ} {A : Type ℓ} (p : A → Bool) where
  any-swap : (a b c : Bool) → (a || (b || c)) ≡ (b || (a || c))
  any-swap a b c = ground arith

  any-permᴰ : {xs ys : List A} → Permᴰ xs ys → any p xs ≡ any p ys
  unfolding any
  any-permᴰ Permᴰ.nil = refl
  any-permᴰ (Permᴰ.cons e q) = λ i. p (e i) || any-permᴰ q i
  any-permᴰ (Permᴰ.swap {a = a} {b = b} {l = l} e f) =
      any-swap (p a) (p b) (any p l) ∙ (λ i. p (f i) || (p (e i) || any p l))
  any-permᴰ (Permᴰ.trans q r) = any-permᴰ q ∙ any-permᴰ r

  pub any-perm : {xs ys : List A} → Perm xs ys → any p xs ≡ any p ys
  any-perm q = ∥∥₁_elim q (Bool-set _ _) any-permᴰ

-- Two leading parts change places.
pub perm_exchange {ℓ} :
    {A : Type ℓ} (xs ys zs : List A) → Perm (xs ++ (ys ++ zs)) (ys ++ (xs ++ zs))
perm_exchange xs ys zs =
    subst₂ Perm (append_assoc xs ys zs) (append_assoc ys xs zs)
      (Perm.append_right zs (perm_append_comm xs ys))

module _ {ℓ} {A : Type ℓ} (p : A → Bool) where
  -- What a filter keeps of one element.
  kept : A → List A
  kept x = if p x then x ∷ [] else []

  filter-cons : (x : A) (xs : List A) → filter p (x ∷ xs) ≡ kept x ++ filter p xs
  unfolding filter kept
  filter-cons x xs = go (p x)
    where
      go :
          (b : Bool)
          → (if b then x ∷ filter p xs else filter p xs) ≡ (if b then x ∷ [] else []) ++ filter p xs
      go true = refl
      go false = refl

  filter-permᴰ : {xs ys : List A} → Permᴰ xs ys → Perm (filter p xs) (filter p ys)
  filter-permᴰ Permᴰ.nil = Perm.rfl
  filter-permᴰ (Permᴰ.cons {a = a} {l₁ = l} {l₂ = m} e q) =
      subst (λ b. Perm (filter p (a ∷ l)) (filter p (b ∷ m))) e
        (rw (filter-cons a l, filter-cons a m) (Perm.append_left (kept a) (filter-permᴰ q)))
  filter-permᴰ (Permᴰ.swap {a = a} {b = b} {l = l} e f) =
      subst₂ (λ c d. Perm (filter p (a ∷ b ∷ l)) (filter p (c ∷ d ∷ l))) f e
        (rw (filter-cons a (b ∷ l), filter-cons b l, filter-cons b (a ∷ l), filter-cons a l)
          (perm_exchange (kept a) (kept b) (filter p l)))
  filter-permᴰ (Permᴰ.trans q r) = Perm.trans (filter-permᴰ q) (filter-permᴰ r)

  pub filter-perm : {xs ys : List A} → Perm xs ys → Perm (filter p xs) (filter p ys)
  filter-perm q = ∥∥₁_elim q squash₁ filter-permᴰ

  pub filter-append : (xs ys : List A) → filter p (xs ++ ys) ≡ filter p xs ++ filter p ys
  unfolding filter
  filter-append [] ys = refl
  filter-append (x ∷ xs) ys =
      filter-cons x (xs ++ ys)
      ∙ ap (λ r. kept x ++ r) (filter-append xs ys)
      ∙ sym (append_assoc (kept x) (filter p xs) (filter p ys))
      ∙ ap (λ r. r ++ filter p ys) (sym (filter-cons x xs))

  -- A filter of what all passes, or none.
  pub filter-All-true : (xs : List A) → All (λ x. p x ≡ true) xs → filter p xs ≡ xs
  unfolding filter
  filter-All-true [] h = refl
  filter-All-true (x ∷ xs) (e, h) = rw (e, filter-All-true xs h) refl

  pub filter-All-false : (xs : List A) → All (λ x. p x ≡ false) xs → filter p xs ≡ []
  unfolding filter
  filter-All-false [] h = refl
  filter-All-false (x ∷ xs) (e, h) = rw (e, filter-All-false xs h) refl
