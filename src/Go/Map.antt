-- ===== src/Go/Map.antt =====
-- Maps with string keys, as association lists in which no key stands twice. The order of the
-- list is one order in which `range` may visit the map.
pub mod Laws
pub mod Order
use Prim.Native.Nat.{ℕ}
use wingstation.Prelude.{
  Str, str_eq, Bool, not, List, [], ◌∷◌, Option, none, some, ◌≡◌, if◌then◌else◌, filter,
}

module _ {ℓ} {V : Type ℓ} where
  -- `m[k]`
  unfoldable pub lookup : Str → List (Str × V) → Option V
  lookup k [] = none
  lookup k ((j, v) ∷ m) = if str_eq j k then some v else lookup k m

  -- `m[k] = v`
  unfoldable pub insert : Str → V → List (Str × V) → List (Str × V)
  insert k v [] = (k, v) ∷ []
  insert k v ((j, w) ∷ m) = if str_eq j k then (j, v) ∷ m else (j, w) ∷ insert k v m

  -- `delete(m, k)`
  unfoldable pub delete : Str → List (Str × V) → List (Str × V)
  unfolding filter
  delete k = filter (λ e. not (str_eq e.0 k))

  -- No key stands twice.
  abbrev pub HasDistinctKeys : List (Str × V) → Type ℓ
  HasDistinctKeys [] = Unit
  HasDistinctKeys ((k, v) ∷ m) = (lookup k m ≡ none) × HasDistinctKeys m
