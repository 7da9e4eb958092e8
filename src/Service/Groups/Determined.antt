-- ===== src/Service/Groups/Determined.antt =====
-- `ListGrouped` (internal/service/container.go) under two orders of visiting the map of the
-- groups and two sorting algorithms.
use mathlib.Core.List.{
  Perm, Mem, mem-cons, mem-cons_self, mem-cons_of_mem, mem-append_left, mem-append_right, mem-map,
  not-mem-nil,
}
use mathlib.Core.List.Perm
use mathlib.Core.Logic.Or
use mathlib.Core.Option.{some-injective}
use mathlib.Core.Logic.{∥∥₁_elim}
use wingstation.Prelude.{Str, List, [], ◌∷◌, Option, ◌≡◌, refl, sym, ◌∙◌, ap, ap₂, map, subst}
use wingstation.Prelude.Perm.{All-mem}
use wingstation.Go.Map.{lookup}
use wingstation.Go.Map.Order.{lookup_of_mem}
use wingstation.Go.Runtime.{Runtime}
use wingstation.Go.Runtime.Unique.{TellsApart, sort_determined}
use wingstation.Docker.Models.{Container, ContainerGroup}
use wingstation.Service.Groups.{
  Groups, container_less, group_less, sort_members, group_map, group_containers,
}
use wingstation.Service.Groups.Order.{ranks_antisymm, container_less-IsOrder, group_less-IsOrder}
use wingstation.Service.Groups.Collect.{
  IsEntry, members, values, group_map-IsEntry, group_map-HasDistinctKeys, members-group_map,
}
use wingstation.Service.Groups.Sorted.{IsEntry-prop}

-- No two listed containers share a name, as the Docker daemon has it.
abbrev pub NamesDiffer : List Container → Type 0
NamesDiffer cs = (a b : Container) → Mem a cs → Mem b cs → a.name ≡ b.name → a ≡ b

pub Container-set : IsSet Container
Container-set = hlevel

ContainerGroup-set : IsSet ContainerGroup
ContainerGroup-set = hlevel

mem-members :
    (c : Container) (e : Str × ContainerGroup) (m : Groups)
    → Mem e m
    → Mem c e.1.containers
    → Mem c (members (values m))
unfolding members
mem-members c e [] n h = absurd (not-mem-nil n)
mem-members c e (f ∷ m) n h =
    Or.elim squash₁ (mem-cons.0 n)
      (λ p. mem-append_left (members (values m)) (subst (λ x. Mem c x.1.containers) p h))
      (λ r. mem-append_right f.1.containers (mem-members c e m r h))

module _ (cs : List Container) (differ : NamesDiffer cs) where
  -- Members of one group that rank equally are one container.
  members_apart :
      (e : Str × ContainerGroup) → Mem e (group_map cs) → TellsApart container_less e.1.containers
  unfolding container_less
  members_apart e n a b ma mb h k =
      let listed = λ (c : Container) (m : Mem c e.1.containers).
        (Perm.mem_iff (members-group_map cs)).0 (mem-members c e (group_map cs) n m) in
      differ a b (listed a ma) (listed b mb)
        (ranks_antisymm a.labels.priority b.labels.priority a.name b.name h k)

  module _ (rt ru : Runtime) where
    sort_members_determined :
        (e : Str × ContainerGroup) → Mem e (group_map cs) → sort_members rt e ≡ sort_members ru e
    unfolding sort_members
    sort_members_determined (k, g) n =
        ap (λ l. record g { containers = l })
          (sort_determined container_less container_less-IsOrder rt ru g.containers g.containers
            Perm.rfl (members_apart (k, g) n))

    map-sort_members_determined :
        (m : Groups)
        → ((e : Str × ContainerGroup) → Mem e m → Mem e (group_map cs))
        → map (sort_members rt) m ≡ map (sort_members ru) m
    map-sort_members_determined [] sub = refl
    map-sort_members_determined (e ∷ m) sub =
        ap₂ ◌∷◌ (sort_members_determined e (sub e mem-cons_self))
          (map-sort_members_determined m (λ f n. sub f (mem-cons_of_mem e n)))

    -- What the two runtimes sort are rearrangements of each other.
    sort_members-perm :
        Perm
          (map (sort_members rt) (rt.iterate (Str × ContainerGroup) (group_map cs)))
          (map (sort_members ru) (ru.iterate (Str × ContainerGroup) (group_map cs)))
    sort_members-perm =
        let there = rt.iterate_perm (Str × ContainerGroup) (group_map cs) in
        let back = Perm.symm (ru.iterate_perm (Str × ContainerGroup) (group_map cs)) in
        rw (map-sort_members_determined _ (λ e n. (Perm.mem_iff there).0 n))
          (Perm.map (sort_members ru) (Perm.trans there back))

entry_named :
    (cs : List Container) (e : Str × ContainerGroup) → Mem e (group_map cs) → e.1.name ≡ e.0
entry_named cs e n = (All-mem IsEntry IsEntry-prop (group_map cs) e (group_map-IsEntry cs) n).keyed

-- Entries of the map under one name are one entry.
entry_unique :
    (cs : List Container) (e f : Str × ContainerGroup)
    → Mem e (group_map cs)
    → Mem f (group_map cs)
    → e.1.name ≡ f.1.name
    → e.1 ≡ f.1
entry_unique cs (j, g) (k, h) m n same =
    let keys : j ≡ k = sym (entry_named cs (j, g) m) ∙ (same ∙ entry_named cs (k, h) n) in
    let set : IsSet (Option ContainerGroup) = hlevel in
    let d = group_map-HasDistinctKeys cs in
    let found = lookup_of_mem set j g (group_map cs) d m in
    let other = lookup_of_mem set k h (group_map cs) d n in
    some-injective _ _ (sym found ∙ (ap (λ i. lookup i (group_map cs)) keys ∙ other))

module _ (rt : Runtime) (cs : List Container) where
  sort_members-name : (e : Str × ContainerGroup) → (sort_members rt e).name ≡ e.1.name
  unfolding sort_members
  sort_members-name (k, g) = refl

  sort_members-cong :
      (e f : Str × ContainerGroup) → e.1 ≡ f.1 → sort_members rt e ≡ sort_members rt f
  unfolding sort_members
  sort_members-cong (j, g) (k, h) p =
      ap {A = ContainerGroup}
        (λ x. record x { containers = rt.sort Container container_less x.containers }) p

  -- What is visited of the map is in the map.
  visited_in_map :
      (e : Str × ContainerGroup)
      → Mem e (rt.iterate (Str × ContainerGroup) (group_map cs))
      → Mem e (group_map cs)
  visited_in_map e = (Perm.mem_iff (rt.iterate_perm (Str × ContainerGroup) (group_map cs))).0

  shown_unique :
      (e f : Str × ContainerGroup)
      → Mem e (group_map cs)
      → Mem f (group_map cs)
      → (sort_members rt e).name ≡ (sort_members rt f).name
      → sort_members rt e ≡ sort_members rt f
  shown_unique e f me mf same =
      sort_members-cong e f
        (entry_unique cs e f me mf (sym (sort_members-name e) ∙ (same ∙ sort_members-name f)))

  -- Groups with equal ranks have one name, and so are one group.
  groups_apart :
      TellsApart group_less
        (map (sort_members rt) (rt.iterate (Str × ContainerGroup) (group_map cs)))
  unfolding group_less
  groups_apart a b ma mb h k =
      let same = ranks_antisymm a.priority b.priority a.name b.name h k in
      ∥∥₁_elim (mem-map.0 ma) (ContainerGroup-set a b) (λ (e, me, pe).
        ∥∥₁_elim (mem-map.0 mb) (ContainerGroup-set a b) (λ (f, mf, pf).
          sym pe
          ∙ (shown_unique e f (visited_in_map e me) (visited_in_map f mf)
                (ap (λ g. g.name) pe ∙ (same ∙ sym (ap (λ g. g.name) pf)))
              ∙ pf)))

-- Whatever order Go visits the map of the groups in, and whatever sorting algorithm it uses,
-- `ListGrouped` returns the same groups in the same order with the same members in the same
-- order, if no two listed containers share a name.
pub group_containers_determined :
    (rt ru : Runtime) (cs : List Container)
    → NamesDiffer cs
    → group_containers rt cs ≡ group_containers ru cs
unfolding group_containers
group_containers_determined rt ru cs differ =
    sort_determined group_less group_less-IsOrder rt ru _ _ (sort_members-perm cs differ rt ru)
      (groups_apart rt cs)
