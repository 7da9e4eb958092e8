-- ===== src/Service/Groups/Collect.antt =====
-- The map of the groups: every container in the group of its name, with the lowest priority
-- number of its members.
use mathlib.Core.List.{foldl, Perm, perm_middle}
use mathlib.Core.List.Perm
use mathlib.Core.Option.{none-ne-some, some-injective}
use wingstation.Prelude.{
  Str, str_eq, Bool, true, ◌||◌, List, [], ◌∷◌, ◌++◌, none, some, ◌≡◌, refl, sym, if◌then◌else◌,
  arith, All, All-append, All-imp, any, map, Bool-cases, Option-cases, inl, inr, append_assoc,
  append-nil,
}
use wingstation.Prelude.Int.{ℤ, ltb_ℤ, ◌==ℤ◌, ◌≤ℤ◌}
use wingstation.Go.Map.{lookup, insert, HasDistinctKeys}
use wingstation.Go.Map.Laws.{HasDistinctKeys-insert, All-insert, All-lookup}
use wingstation.Docker.Labels.{group_name}
use wingstation.Docker.Models.{Container, ContainerGroup}
use wingstation.Service.Groups.{Groups, opened, joined, add_to_group, group_map}

abbrev at_priority : ℤ → Container → Bool
at_priority p c = c.labels.priority ==ℤ p

-- What a group of the dashboard is: its members carry its name, and its priority is the lowest
-- priority number among them. So it has a member.
pub record IsGroup (g : ContainerGroup) : Type 0 where
  pub named : All (λ c. group_name c.labels ≡ g.name) g.containers
  pub lowest : All (λ c. g.priority ≤ℤ c.labels.priority) g.containers
  pub reached : any (at_priority g.priority) g.containers ≡ true

-- A group under its key.
pub record IsEntry (e : Str × ContainerGroup) : Type 0 where
  pub keyed : e.1.name ≡ e.0
  pub group : IsGroup e.1

any-last :
    (p : Container → Bool) (xs : List Container) (c : Container)
    → any p (xs ++ c ∷ []) ≡ (any p xs || p c)
unfolding any
any-last p [] c = ground arith
any-last p (x ∷ xs) c = ground (arith, any-last p xs c)

joined-opened : (c : Container) → IsEntry (group_name c.labels, joined (opened c) c)
unfolding joined any
joined-opened c = record {
  keyed = refl;
  group = record { named = (refl, tt); lowest = (ground arith, tt); reached = ground arith };
}

abbrev lower : ℤ → ℤ → ℤ
lower p q = if ltb_ℤ q p then q else p

lower-le : (p q : ℤ) → lower p q ≤ℤ q
lower-le p q = ground arith

lower-le_of_le : (p q r : ℤ) → p ≤ℤ r → lower p q ≤ℤ r
lower-le_of_le p q r h = ground arith

joined-IsEntry :
    (g : ContainerGroup) (c : Container)
    → IsEntry (group_name c.labels, g)
    → IsEntry (group_name c.labels, joined g c)
unfolding joined
joined-IsEntry g c e = record {
  keyed = e.keyed;
  group = record {
    named = All-append _ g.containers (c ∷ []) e.group.named (sym e.keyed, tt);
    lowest =
        All-append (λ d. lower g.priority c.labels.priority ≤ℤ d.labels.priority) g.containers
          (c ∷ [])
          (All-imp _ _ (λ d h. lower-le_of_le g.priority c.labels.priority d.labels.priority h)
            g.containers e.group.lowest)
          (lower-le g.priority c.labels.priority, tt);
    reached = ground (
      arith,
      any-last (at_priority c.labels.priority) g.containers c,
      any-last (at_priority g.priority) g.containers c,
      e.group.reached,
    );
  };
}

add_to_group-IsEntry : (m : Groups) (c : Container) → All IsEntry m → All IsEntry (add_to_group m c)
unfolding add_to_group
add_to_group-IsEntry m c h = elim (Option-cases (lookup (group_name c.labels) m)) [
  | inl e ↦ rw e (All-insert IsEntry _ _ m h (joined-opened c))
  | inr (g, e) ↦ rw e (
      All-insert IsEntry _ _ m h
        (joined-IsEntry g c (All-lookup IsEntry (group_name c.labels) g m h e)))
]

collect-IsEntry :
    (m : Groups) (cs : List Container) → All IsEntry m → All IsEntry (foldl add_to_group m cs)
collect-IsEntry m [] h = h
collect-IsEntry m (c ∷ cs) h = collect-IsEntry (add_to_group m c) cs (add_to_group-IsEntry m c h)

-- Every entry of the map is a group under its own name.
pub group_map-IsEntry : (cs : List Container) → All IsEntry (group_map cs)
unfolding group_map
group_map-IsEntry cs = collect-IsEntry [] cs tt

collect-HasDistinctKeys :
    (m : Groups) (cs : List Container)
    → HasDistinctKeys m
    → HasDistinctKeys (foldl add_to_group m cs)
unfolding add_to_group
collect-HasDistinctKeys m [] h = h
collect-HasDistinctKeys m (c ∷ cs) h =
    collect-HasDistinctKeys (add_to_group m c) cs (HasDistinctKeys-insert _ _ m h)

pub group_map-HasDistinctKeys : (cs : List Container) → HasDistinctKeys (group_map cs)
unfolding group_map
group_map-HasDistinctKeys cs = collect-HasDistinctKeys [] cs tt

-- The containers of all groups.
unfoldable pub members : List ContainerGroup → List Container
members [] = []
members (g ∷ gs) = g.containers ++ members gs

-- The groups of the map.
abbrev pub values : Groups → List ContainerGroup
values = map (λ e. e.1)

-- One more element goes in front of those before it.
perm_under :
    {A : Type 0} (c : A) (xs ys zs : List A) → Perm ys (c ∷ zs) → Perm (xs ++ ys) (c ∷ (xs ++ zs))
perm_under c xs ys zs p = Perm.trans (Perm.append_left xs p) (perm_middle xs zs)

members-insert_new :
    (k : Str) (g : ContainerGroup) (c : Container) (m : Groups)
    → lookup k m ≡ none
    → g.containers ≡ c ∷ []
    → Perm (members (values (insert k g m))) (c ∷ members (values m))
unfolding members lookup insert
members-insert_new k g c [] h e = rw e Perm.rfl
members-insert_new k g c ((j, i) ∷ m) h e = elim (Bool-cases (str_eq j k)) [
  | inl same ↦ absurd (none-ne-some i (sym (rw same at h)))
  | inr other ↦
      rw other (perm_under c i.containers _ _ (members-insert_new k g c m (rw other at h) e))
]

members-insert_old :
    (k : Str) (g i : ContainerGroup) (c : Container) (m : Groups)
    → lookup k m ≡ some i
    → g.containers ≡ i.containers ++ c ∷ []
    → Perm (members (values (insert k g m))) (c ∷ members (values m))
unfolding members lookup insert
members-insert_old k g i c [] h e = absurd (none-ne-some _ h)
members-insert_old k g i c ((j, f) ∷ m) h e = elim (Bool-cases (str_eq j k)) [
  | inl same ↦
      let found : some f ≡ some i = rw same at h in
      rw (same, some-injective _ _ found, e, append_assoc)
        (perm_middle i.containers (members (values m)))
  | inr other ↦
      rw other (perm_under c f.containers _ _ (members-insert_old k g i c m (rw other at h) e))
]

members-add_to_group :
    (m : Groups) (c : Container)
    → Perm (members (values (add_to_group m c))) (c ∷ members (values m))
unfolding add_to_group joined
members-add_to_group m c = elim (Option-cases (lookup (group_name c.labels) m)) [
  | inl e ↦ rw e (members-insert_new _ _ c m e refl)
  | inr (g, e) ↦ rw e (members-insert_old _ _ g c m e refl)
]

members-collect :
    (m : Groups) (cs : List Container)
    → Perm (members (values (foldl add_to_group m cs))) (cs ++ members (values m))
members-collect m [] = Perm.rfl
members-collect m (c ∷ cs) =
    Perm.trans (members-collect (add_to_group m c) cs)
      (Perm.trans (Perm.append_left cs (members-add_to_group m c)) (perm_middle cs _))

-- The groups of the map hold the listed containers, each as often as it is listed.
pub members-group_map : (cs : List Container) → Perm (members (values (group_map cs))) cs
unfolding group_map members
members-group_map cs = rw append-nil at (members-collect [] cs)
