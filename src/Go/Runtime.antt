-- ===== src/Go/Runtime.antt =====
-- What Go leaves open: the order in which `range` visits a map, and where `sort.Slice` puts
-- elements that neither precedes the other. Both are parameters, with what is documented of them.
pub mod Unique
pub mod Insertion
use mathlib.Core.List.{Perm, Pairwise}
use wingstation.Prelude.{Bool, true, false, List, ◌≡◌}

-- What `sort.Slice` asks of its `less`.
pub record IsOrder {A : Type 0} (less : A → A → Bool) : Type 0 where
  pub irrefl : (a : A) → less a a ≡ false
  pub trans : (a b c : A) → less a b ≡ true → less b c ≡ true → less a c ≡ true
  pub negtrans : (a b c : A) → less a b ≡ false → less b c ≡ false → less a c ≡ false

-- No element precedes one that stands before it.
abbrev pub IsSorted : {A : Type 0} → (A → A → Bool) → List A → Type 0
IsSorted less = Pairwise (λ a b. less b a ≡ false)

pub record Runtime : Type 1 where
  pub sort : (A : Type 0) → (A → A → Bool) → List A → List A
  pub sort_perm : (A : Type 0) (less : A → A → Bool) (xs : List A) → Perm (sort A less xs) xs
  pub sort_sorts :
      (A : Type 0) (less : A → A → Bool) (xs : List A)
      → IsOrder less
      → IsSorted less (sort A less xs)
  pub iterate : (A : Type 0) → List A → List A
  pub iterate_perm : (A : Type 0) (xs : List A) → Perm (iterate A xs) xs
