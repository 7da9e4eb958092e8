-- ===== src/Go/Runtime/Unique.antt =====
-- Where the order tells all elements apart, a list has one sorted rearrangement.
use mathlib.Core.List.{Perm, Pairwise, Mem, mem-cons, mem-cons_self, mem-cons_of_mem}
use mathlib.Core.List.Perm
use mathlib.Core.List.Pairwise
use mathlib.Core.Logic.Or
use wingstation.Prelude.{Bool, false, List, [], ◌∷◌, ◌≡◌, sym, ap₂, subst}
use wingstation.Go.Runtime.{IsOrder, IsSorted, Runtime}

module _ {A : Type 0} (less : A → A → Bool) where
  -- Members that neither precedes the other are equal.
  abbrev pub TellsApart : List A → Type 0
  TellsApart xs = (a b : A) → Mem a xs → Mem b xs → less a b ≡ false → less b a ≡ false → a ≡ b

  Bool-eq-prop : (b c : Bool) → IsProp (b ≡ c)
  Bool-eq-prop b c = set b c
    where
      set : IsSet Bool
      set = hlevel

  -- The head of a sorted list is preceded by no member.
  not_before_head :
      IsOrder less
      → (a b : A) (l : List A) → IsSorted less (a ∷ l)
      → Mem b (a ∷ l)
      → less b a ≡ false
  not_before_head o a b l (Pairwise.cons h s) m =
      Or.elim (Bool-eq-prop (less b a) false) (mem-cons.0 m)
        (λ e. subst (λ c. less c a ≡ false) (sym e) (o.irrefl a)) (h b)

  -- Sorted rearrangements of one list are equal.
  pub sorted_unique :
      IsOrder less
      → (xs ys : List A) → Perm xs ys
      → IsSorted less xs
      → IsSorted less ys
      → TellsApart xs
      → xs ≡ ys
  sorted_unique o [] ys p s t apart = Perm.nil-eq p
  sorted_unique o (a ∷ l) [] p s t apart = Perm.eq-nil p
  sorted_unique o (a ∷ l) (b ∷ r) p s t apart =
      let ma = (Perm.mem_iff p).0 mem-cons_self in
      let mb = (Perm.mem_iff p).1 mem-cons_self in
      let heads =
        apart a b mem-cons_self mb (not_before_head o b a r t ma) (not_before_head o a b l s mb) in
      let tails = Perm.cons_inv (Perm.trans p (Perm.cons' (sym heads) Perm.rfl)) in
      ap₂ ◌∷◌ heads (
        sorted_unique o l r tails (Pairwise.of_cons s) (Pairwise.of_cons t)
          (λ x y mx my. apart x y (mem-cons_of_mem a mx) (mem-cons_of_mem a my)))

  -- Where the order tells the elements apart, two runtimes sort alike.
  pub sort_determined :
      IsOrder less
      → (rt ru : Runtime) (xs ys : List A) → Perm xs ys
      → TellsApart xs
      → rt.sort A less xs ≡ ru.sort A less ys
  sort_determined o rt ru xs ys p apart =
      let first = rt.sort_perm A less xs in
      let second = ru.sort_perm A less ys in
      sorted_unique o _ _ (Perm.trans first (Perm.trans p (Perm.symm second)))
        (rt.sort_sorts A less xs o) (ru.sort_sorts A less ys o)
        (λ a b ma mb. apart a b ((Perm.mem_iff first).0 ma) ((Perm.mem_iff first).0 mb))
