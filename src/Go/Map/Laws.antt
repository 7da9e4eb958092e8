-- ===== src/Go/Map/Laws.antt =====
-- What a map holds after a write, a deletion or a sweep.
use mathlib.Core.Option.{some-injective, none-ne-some}
use mathlib.Core.Path.{subst₂}
use wingstation.Prelude.{
  subst, sym, All, Str, str_eq, str_eq_iff, Bool, List, [], ◌∷◌, none, some, ◌≡◌, refl,
  if◌then◌else◌, filter, arith, Bool-cases, inl, inr,
}
use wingstation.Go.Map.{lookup, insert, delete, HasDistinctKeys}

module _ {ℓ} {V : Type ℓ} where
  pub lookup-insert :
      (k j : Str) (v : V) (m : List (Str × V))
      → lookup j (insert k v m) ≡ (if str_eq k j then some v else lookup j m)
  unfolding lookup insert
  lookup-insert k j v [] = refl
  lookup-insert k j v ((i, w) ∷ m) =
      ground (arith, str_eq_iff k j, str_eq_iff i k, str_eq_iff i j, lookup-insert k j v m)

  pub lookup-delete :
      (k j : Str) (m : List (Str × V))
      → lookup j (delete k m) ≡ (if str_eq k j then none else lookup j m)
  unfolding lookup delete filter
  lookup-delete k j [] = ground arith
  lookup-delete k j ((i, w) ∷ m) =
      ground (arith, str_eq_iff k j, str_eq_iff i k, str_eq_iff i j, lookup-delete k j m)

  -- An absent key stays absent when entries are dropped.
  lookup-filter-none :
      (p : Str × V → Bool) (k : Str) (m : List (Str × V))
      → lookup k m ≡ none
      → lookup k (filter p m) ≡ none
  unfolding lookup filter
  lookup-filter-none p k [] h = refl
  lookup-filter-none p k ((j, v) ∷ m) h = ground (arith, lookup-filter-none p k m)

  pub HasDistinctKeys-filter :
      (p : Str × V → Bool) (m : List (Str × V)) → HasDistinctKeys m → HasDistinctKeys (filter p m)
  unfolding filter
  HasDistinctKeys-filter p [] h = tt
  HasDistinctKeys-filter p ((k, v) ∷ m) (absent, h) = elim (Bool-cases (p (k, v))) [
    | inl kept ↦ rw kept (lookup-filter-none p k m absent, HasDistinctKeys-filter p m h)
    | inr dropped ↦ rw dropped (HasDistinctKeys-filter p m h)
  ]

  -- With distinct keys a sweep removes an entry exactly when the entry fails the test.
  pub lookup-filter :
      (p : Str × V → Bool) (k : Str) (m : List (Str × V))
      → HasDistinctKeys m
      → lookup k (filter p m)
        ≡ elim (lookup k m) [ none ↦ none | some v ↦ (if p (k, v) then some v else none) ]
  unfolding lookup filter
  lookup-filter p k [] h = refl
  lookup-filter p k ((j, v) ∷ m) (absent, h) = ground (
    arith,
    str_eq_iff j k,
    lookup-filter p k m h,
    lookup-filter-none p j m absent,
    lookup-filter-none p k m,
  )

  pub HasDistinctKeys-insert :
      (k : Str) (v : V) (m : List (Str × V)) → HasDistinctKeys m → HasDistinctKeys (insert k v m)
  unfolding lookup insert
  HasDistinctKeys-insert k v [] h = (refl, tt)
  HasDistinctKeys-insert k v ((j, w) ∷ m) (absent, h) = elim (Bool-cases (str_eq j k)) [
    | inl same ↦ rw same (absent, h)
    | inr other ↦ rw other (
      ground (arith, lookup-insert k j v m, str_eq_iff k j, str_eq_iff j k),
      HasDistinctKeys-insert k v m h,
    )
  ]

  pub HasDistinctKeys-delete :
      (k : Str) (m : List (Str × V)) → HasDistinctKeys m → HasDistinctKeys (delete k m)
  unfolding delete
  HasDistinctKeys-delete k m h = HasDistinctKeys-filter _ m h

-- What all entries satisfy, at the entries that are found and after a write.
module _ {ℓ κ} {V : Type ℓ} (P : Str × V → Type κ) where
  pub All-lookup : (k : Str) (v : V) (m : List (Str × V)) → All P m → lookup k m ≡ some v → P (k, v)
  unfolding lookup
  All-lookup k v [] h e = absurd (none-ne-some _ e)
  All-lookup k v ((j, w) ∷ m) (p, h) e = elim (Bool-cases (str_eq j k)) [
    | inl same ↦
        let value : some w ≡ some v = rw same at e in
        subst₂ (λ i x. P (i, x)) ((str_eq_iff j k).0 same) (some-injective _ _ value) p
    | inr other ↦ All-lookup k v m h (rw other at e)
  ]

  pub All-insert :
      (k : Str) (v : V) (m : List (Str × V)) → All P m → P (k, v) → All P (insert k v m)
  unfolding insert
  All-insert k v [] h p = (p, tt)
  All-insert k v ((j, w) ∷ m) (q, h) p = elim (Bool-cases (str_eq j k)) [
    | inl same ↦ rw same (subst (λ i. P (i, v)) (sym ((str_eq_iff j k).0 same)) p, h)
    | inr other ↦ rw other (q, All-insert k v m h p)
  ]
