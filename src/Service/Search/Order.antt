-- ===== src/Service/Search/Order.antt =====
-- What a search returns, in which order.
use mathlib.Core.List.{Perm, Pairwise, perm_middle}
use mathlib.Core.List.Perm
use mathlib.Core.List.Pairwise
use wingstation.Prelude.Perm.{All-perm, Bool-set}
use wingstation.Service.Search.Spec.{
  Fits, MayPrecede, matches_search-Fits, Fits-matches_search, sort_less-MayPrecede,
}
use wingstation.Prelude.{
  Str, bytes, str_eq, str_lt, str_lt_irrefl, str_lt_trans, str_lt_negtrans, Bool, true, false, not,
  All, All-imp, filter-All, Bool-cases, inl, inr, ◌≡◌, ◌∷◌, ◌++◌, [], List, refl, subst, filter,
  filter_all, if◌then◌else◌,
}
use wingstation.Prelude.Int.{ltb_ℤ, ltb_ℤ_irrefl, ltb_ℤ_trans, ltb_ℤ_negtrans}
use wingstation.Go.Strings.{Unicode}
use wingstation.Go.Runtime.{Runtime, IsOrder, IsSorted}
use wingstation.Docker.Models.{Container}
use wingstation.Service.Groups.Order.{container_less-IsOrder}
use wingstation.Service.Search.{
  SearchParams, matches_search, sort_less, sort_containers, search_containers,
}

-- A comparison chosen by a test.
IsOrder-if :
    (b : Bool) {less more : Container → Container → Bool}
    → IsOrder less
    → IsOrder more
    → IsOrder (λ x y. if b then less x y else more x y)
IsOrder-if true p q = p
IsOrder-if false p q = q

by_text : (f : Container → Str) → IsOrder (λ a b. str_lt (f a) (f b))
by_text f = record {
  irrefl = λ a. str_lt_irrefl (f a);
  trans = λ a b c. str_lt_trans (f a) (f b) (f c);
  negtrans = λ a b c. str_lt_negtrans (f a) (f b) (f c);
}

newest_first : IsOrder (λ (a b : Container). ltb_ℤ b.created a.created)
newest_first = record {
  irrefl = λ a. ltb_ℤ_irrefl a.created;
  trans = λ a b c h k. ltb_ℤ_trans c.created b.created a.created k h;
  negtrans = λ a b c h k. ltb_ℤ_negtrans c.created b.created a.created k h;
}

-- Each choice of `sortContainers` is an order.
sort_less-IsOrder : (sort_by : Str) → IsOrder (sort_less sort_by)
unfolding sort_less
sort_less-IsOrder sort_by = IsOrder-if (str_eq sort_by (bytes "name")) (by_text (λ c. c.name)) (
    IsOrder-if (str_eq sort_by (bytes "status")) (by_text (λ c. c.state))
      (IsOrder-if (str_eq sort_by (bytes "created")) newest_first container_less-IsOrder))

-- The containers that match, and the others.
filter_splits :
    (p : Container → Bool) (cs : List Container)
    → Perm cs (filter p cs ++ filter (λ c. not (p c)) cs)
unfolding filter
filter_splits p [] = Perm.rfl
filter_splits p (c ∷ cs) = elim (Bool-cases (p c)) [
  | inl e ↦ rw e (Perm.cons c (filter_splits p cs))
  | inr e ↦ rw e (
      Perm.trans (Perm.cons c (filter_splits p cs))
        (Perm.symm (perm_middle (filter p cs) (filter (λ c. not (p c)) cs))))
]

-- A filtered and sorted listing.
pub search_containers-sorts :
    (rt : Runtime) (u : Unicode) (cs : List Container) (p : SearchParams)
    → Perm (search_containers rt u cs p) (filter (matches_search u p) cs)
      × IsSorted (sort_less p.sort) (search_containers rt u cs p)
unfolding search_containers sort_containers
search_containers-sorts rt u cs p = (
  rt.sort_perm Container (sort_less p.sort) (filter (matches_search u p) cs),
  rt.sort_sorts Container (sort_less p.sort) (filter (matches_search u p) cs)
      (sort_less-IsOrder p.sort),
)

-- `Search` divides the listed containers, each as often as it is listed, into those that it returns
-- and others: each that it returns fits the request, by its state, group, tags, and name, image or
-- short id, none of the others does, and each that it returns may stand before those behind it in
-- the order that is asked for, by name, by state, by the newest, or else by priority and name.
pub search_containers_correct :
    (rt : Runtime) (u : Unicode) (cs : List Container) (p : SearchParams)
    → (others : List Container) × Perm cs (search_containers rt u cs p ++ others)
      × All (Fits u p.query p.status p.group p.tag) (search_containers rt u cs p)
      × All (λ c. ¬ Fits u p.query p.status p.group p.tag c) others
      × Pairwise (MayPrecede p.sort) (search_containers rt u cs p)
search_containers_correct rt u cs p =
    let (same, sorted) = search_containers-sorts rt u cs p in
    let matching = filter (matches_search u p) cs in
    let others = filter (λ c. not (matches_search u p c)) cs in
    (
      others,
      Perm.trans (filter_splits (matches_search u p) cs)
          (Perm.append_right others (Perm.symm same)),
      All-imp (λ c. matches_search u p c ≡ true) _ (λ c. matches_search-Fits u p c) _
          (All-perm (λ c. matches_search u p c ≡ true) (λ c. Bool-set _ _) (Perm.symm same)
            (filter-All (matches_search u p) cs)),
      All-imp (λ c. not (matches_search u p c) ≡ true) _
          (λ c h f. not_true (matches_search u p c) h (Fits-matches_search u p c f)) others
          (filter-All (λ c. not (matches_search u p c)) cs),
      Pairwise.imp {S = MayPrecede p.sort} (λ x y. sort_less-MayPrecede p.sort x y)
          {l = search_containers rt u cs p} sorted,
    )
  where
    not_true : (b : Bool) → not b ≡ true → b ≡ true → ⊥
    not_true true h k = cc
    not_true false h k = cc

abbrev pub sorted_by : Str → SearchParams
sorted_by s = record { query = []; status = []; group = []; tag = []; sort = s }

-- A search with no criteria returns all listed containers.
pub search_containers_all :
    (rt : Runtime) (u : Unicode) (cs : List Container) (s : Str)
    → Perm (search_containers rt u cs (sorted_by s)) cs
search_containers_all rt u cs s =
    subst (Perm (search_containers rt u cs (sorted_by s)))
      (filter_all (matches_search u (sorted_by s)) (λ c. unfold matches_search str_eq in refl) cs)
      (search_containers-sorts rt u cs (sorted_by s)).0
