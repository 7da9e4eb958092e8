-- ===== src/Go/Runtime/Insertion.antt =====
-- A runtime: maps visited from the front or from the back, slices sorted by insertion.
use mathlib.Core.List.{Perm, Pairwise, Mem, mem-cons, reverse, reverse_perm, Pairwise-singleton}
use mathlib.Core.List.Perm
use mathlib.Core.Logic.Or
use wingstation.Prelude.{
  Bool, true, false, List, [], ◌∷◌, ◌≡◌, sym, subst, if◌then◌else◌, Bool-cases, not-true, not_both,
  inl, inr,
}
use wingstation.Go.Runtime.{IsOrder, IsSorted, Runtime}

bool_set : IsSet Bool
bool_set = hlevel

module _ {A : Type 0} (less : A → A → Bool) where
  pub insert : A → List A → List A
  insert a [] = a ∷ []
  insert a (b ∷ l) = if less b a then b ∷ insert a l else a ∷ b ∷ l

  pub sort : List A → List A
  sort [] = []
  sort (a ∷ l) = insert a (sort l)

  insert-perm : (a : A) (l : List A) → Perm (insert a l) (a ∷ l)
  unfolding insert
  insert-perm a [] = Perm.rfl
  insert-perm a (b ∷ l) = elim (Bool-cases (less b a)) [
    | inl e ↦ rw e (Perm.trans (Perm.cons b (insert-perm a l)) (Perm.swap a b l))
    | inr e ↦ rw e Perm.rfl
  ]

  pub sort-perm : (l : List A) → Perm (sort l) l
  unfolding sort
  sort-perm [] = Perm.rfl
  sort-perm (a ∷ l) = Perm.trans (insert-perm a (sort l)) (Perm.cons a (sort-perm l))

  module _ (o : IsOrder less) where
    asymm : (a b : A) → less a b ≡ true → less b a ≡ false
    asymm a b h = not-true (less b a) (λ k. not_both (less a a) (o.trans a b a h k) (o.irrefl a))

    -- What is preceded by nothing of a list, and not by the new element, is so after insertion.
    insert-below :
        (b a : A) (l : List A)
        → less a b ≡ false
        → ((x : A) → Mem x l → less x b ≡ false)
        → (x : A) → Mem x (insert a l)
        → less x b ≡ false
    insert-below b a l h below x m =
        Or.elim (λ p q. bool_set _ _ p q) (mem-cons.0 ((Perm.mem_iff (insert-perm a l)).0 m))
          (λ e. subst (λ c. less c b ≡ false) (sym e) h) (below x)

    insert-IsSorted : (a : A) (l : List A) → IsSorted less l → IsSorted less (insert a l)
    unfolding insert
    insert-IsSorted a [] s = Pairwise-singleton _ a
    insert-IsSorted a (b ∷ l) (Pairwise.cons h s) = elim (Bool-cases (less b a)) [
      | inl e ↦ rw e (Pairwise.cons (insert-below b a l (asymm b a e) h) (insert-IsSorted a l s))
      | inr e ↦ rw e (
          Pairwise.cons
            (λ x m.
              Or.elim (λ p q. bool_set _ _ p q) (mem-cons.0 m)
                (λ f. subst (λ c. less c a ≡ false) (sym f) e) (λ n. o.negtrans x b a (h x n) e))
            (Pairwise.cons h s))
    ]

    pub sort-IsSorted : (l : List A) → IsSorted less (sort l)
    unfolding sort
    sort-IsSorted [] = Pairwise.nil
    sort-IsSorted (a ∷ l) = insert-IsSorted a (sort l) (sort-IsSorted l)

-- Visits maps from the front.
unfoldable pub forward : Runtime
unfolding sort insert
forward = record {
  sort = λ A less. sort less;
  sort_perm = λ A less. sort-perm less;
  sort_sorts = λ A less xs o. sort-IsSorted less o xs;
  iterate = λ A xs. xs;
  iterate_perm = λ A xs. Perm.rfl;
}

-- Visits maps from the back.
unfoldable pub backward : Runtime
unfolding sort insert
backward = record {
  sort = λ A less. sort less;
  sort_perm = λ A less. sort-perm less;
  sort_sorts = λ A less xs o. sort-IsSorted less o xs;
  iterate = λ A xs. reverse xs;
  iterate_perm = λ A xs. reverse_perm xs;
}
