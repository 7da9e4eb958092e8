-- ===== src/Go/Map/Order.antt =====
-- What a map holds, in two orders of its entries.
use mathlib.Core.List.{Perm, Permᴰ, Mem, mem-cons, not-mem-nil}
use mathlib.Core.Logic.Or
use mathlib.Core.Logic.{∥∥₁_elim}
use mathlib.Core.HLevel.{×_prop, Unit-prop}
use wingstation.Prelude.{
  Str, str_eq_iff, str_eq_refl, List, [], ◌∷◌, Option, none, some, ◌≡◌, refl, ◌∙◌, subst, arith,
}
use wingstation.Go.Map.{lookup, HasDistinctKeys}

module _ {ℓ} {V : Type ℓ} where
  -- With distinct keys both parts are kept by a rearrangement.
  pub record Same (xs ys : List (Str × V)) : Type ℓ where
    pub distinct : HasDistinctKeys ys
    pub agree : (k : Str) → lookup k xs ≡ lookup k ys

  Same-cons :
      (e : Str × V) (xs ys : List (Str × V))
      → lookup e.0 xs ≡ none
      → Same xs ys
      → Same (e ∷ xs) (e ∷ ys)
  unfolding lookup
  Same-cons (i, v) xs ys absent s = record {
    distinct = (ground (arith, s.agree i), s.distinct);
    agree = λ k. ground (arith, s.agree k);
  }

  Same-swap :
      (a b : Str × V) (l : List (Str × V))
      → HasDistinctKeys (a ∷ b ∷ l)
      → Same (a ∷ b ∷ l) (b ∷ a ∷ l)
  unfolding lookup
  Same-swap (i, v) (j, w) l (p, (q, h)) = record {
    distinct = (ground (arith, str_eq_iff i j, str_eq_iff j i), (ground arith, h));
    agree = λ k. ground (arith, str_eq_iff i k, str_eq_iff j k, str_eq_iff j i, str_eq_refl k);
  }

  Same-of_permᴰ : {xs ys : List (Str × V)} → Permᴰ xs ys → HasDistinctKeys xs → Same xs ys
  unfolding lookup
  Same-of_permᴰ Permᴰ.nil h = record { distinct = tt; agree = λ k. refl }
  Same-of_permᴰ (Permᴰ.cons {a = a} {l₁ = xs} {l₂ = ys} e p) (absent, h) =
      subst (λ c. Same (a ∷ xs) (c ∷ ys)) e (Same-cons a xs ys absent (Same-of_permᴰ p h))
  Same-of_permᴰ (Permᴰ.swap {a = a} {b = b} {b' = b'} {l = l} e f) h =
      subst (λ c. Same (a ∷ b ∷ l) (c ∷ b' ∷ l)) f
        (subst (λ c. Same (a ∷ b ∷ l) (b ∷ c ∷ l)) e (Same-swap a b l h))
  Same-of_permᴰ (Permᴰ.trans p q) h =
      let s = Same-of_permᴰ p h in
      let t = Same-of_permᴰ q s.distinct in
      record { distinct = t.distinct; agree = λ k. s.agree k ∙ t.agree k }

  HasDistinctKeys-prop : IsSet (Option V) → (m : List (Str × V)) → IsProp (HasDistinctKeys m)
  HasDistinctKeys-prop set [] = Unit-prop
  HasDistinctKeys-prop set ((k, v) ∷ m) =
      ×_prop (set (lookup k m) none) (HasDistinctKeys-prop set m)

  pub HasDistinctKeys-perm :
      IsSet (Option V)
      → {xs ys : List (Str × V)} → Perm xs ys
      → HasDistinctKeys xs
      → HasDistinctKeys ys
  HasDistinctKeys-perm set {ys} p h =
      ∥∥₁_elim p (HasDistinctKeys-prop set ys) (λ d. (Same-of_permᴰ d h).distinct)

  -- A lookup does not see the order of the entries.
  pub lookup-perm :
      IsSet (Option V)
      → (k : Str) (xs ys : List (Str × V)) → Perm xs ys
      → HasDistinctKeys xs
      → lookup k xs ≡ lookup k ys
  lookup-perm set k xs ys p h =
      ∥∥₁_elim p (set (lookup k xs) (lookup k ys)) (λ d. (Same-of_permᴰ d h).agree k)

  -- An entry behind one with another key.
  beside :
      (k : Str) (v : V) (j : Str) (w : V) (m : List (Str × V))
      → lookup j m ≡ none
      → lookup k m ≡ some v
      → lookup k ((j, w) ∷ m) ≡ some v
  unfolding lookup
  beside k v j w m absent found = ground (arith, str_eq_iff j k)

  -- With distinct keys an entry is found under its key.
  pub lookup_of_mem :
      IsSet (Option V)
      → (k : Str) (v : V) (m : List (Str × V)) → HasDistinctKeys m
      → Mem (k, v) m
      → lookup k m ≡ some v
  unfolding lookup
  lookup_of_mem set k v [] h n = absurd (not-mem-nil n)
  lookup_of_mem set k v ((j, w) ∷ m) (absent, h) n =
      Or.elim (set (lookup k ((j, w) ∷ m)) (some v)) (mem-cons.0 n)
        (λ e. subst (λ p. lookup k (p ∷ m) ≡ some v) e (rw (str_eq_refl k)))
        (λ r. beside k v j w m absent (lookup_of_mem set k v m h r))
