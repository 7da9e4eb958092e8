-- ===== src/Service/Groups/Sorted.antt =====
-- What `ListGrouped` returns: the containers in their groups, both in order.
use mathlib.Core.List.{Perm, Permᴰ, Perm-prop, Pairwise-prop}
use mathlib.Core.List.Perm
use mathlib.Core.Logic.{∥∥₁_elim}
use mathlib.Core.Path.{subst₂}
use native.Mathlib.Bridge.{le_prop}
use wingstation.Prelude.{Str, true, false, List, [], ◌∷◌, ◌++◌, sym, ◌∙◌, All, map, subst}
use wingstation.Prelude.Int.{ℤ, ◌≤ℤ◌}
use wingstation.Prelude.Perm.{All-perm, All-prop, any-perm, Bool-set, perm_exchange}
use wingstation.Go.Runtime.{Runtime, IsSorted}
use wingstation.Docker.Labels.{group_name}
use wingstation.Docker.Models.{Container, ContainerGroup}
use wingstation.Service.Groups.{
  Groups, container_less, group_less, sort_members, group_map, group_containers,
}
use wingstation.Service.Groups.Order.{container_less-IsOrder, group_less-IsOrder}
use wingstation.Service.Groups.Collect.{
  IsGroup, IsEntry, members, values, group_map-IsEntry, members-group_map,
}

-- A group as it is shown: its members in the order of priority and name.
pub record IsShown (g : ContainerGroup) : Type 0 where
  pub group : IsGroup g
  pub sorted : IsSorted container_less g.containers

members-permᴰ : {gs hs : List ContainerGroup} → Permᴰ gs hs → Perm (members gs) (members hs)
unfolding members
members-permᴰ Permᴰ.nil = Perm.rfl
members-permᴰ (Permᴰ.cons {a = g} {l₁ = gs} {l₂ = hs} e p) =
    subst (λ h. Perm (members (g ∷ gs)) (h.containers ++ members hs)) e
      (Perm.append_left g.containers (members-permᴰ p))
members-permᴰ (Permᴰ.swap {a = g} {b = h} {l = l} e f) =
    subst₂ (λ x y. Perm (members (g ∷ h ∷ l)) (x.containers ++ (y.containers ++ members l))) f e
      (perm_exchange g.containers h.containers (members l))
members-permᴰ (Permᴰ.trans p q) = Perm.trans (members-permᴰ p) (members-permᴰ q)

members-perm : {gs hs : List ContainerGroup} → Perm gs hs → Perm (members gs) (members hs)
members-perm p = ∥∥₁_elim p Perm-prop members-permᴰ

ℤ_le_prop : (a b : ℤ) → IsProp (a ≤ℤ b)
ℤ_le_prop a b = le_prop

Str-set : IsSet Str
Str-set = hlevel

IsGroup-prop : (g : ContainerGroup) → IsProp (IsGroup g)
IsGroup-prop g p q = λ i. record {
  named = All-prop _ (λ c. Str-set (group_name c.labels) g.name) g.containers p.named q.named i;
  lowest =
      All-prop _ (λ c. ℤ_le_prop g.priority c.labels.priority) g.containers p.lowest q.lowest i;
  reached = Bool-set _ true p.reached q.reached i;
}

pub IsEntry-prop : (e : Str × ContainerGroup) → IsProp (IsEntry e)
IsEntry-prop e p q = λ i. record {
  keyed = Str-set e.1.name e.0 p.keyed q.keyed i;
  group = IsGroup-prop e.1 p.group q.group i;
}

IsShown-prop : (g : ContainerGroup) → IsProp (IsShown g)
IsShown-prop g p q = λ i. record {
  group = IsGroup-prop g p.group q.group i;
  sorted = Pairwise-prop (λ a b. Bool-set (container_less b a) false) p.sorted q.sorted i;
}

module _ (rt : Runtime) where
  sort_members-IsShown : (e : Str × ContainerGroup) → IsEntry e → IsShown (sort_members rt e)
  unfolding sort_members
  sort_members-IsShown (k, g) h =
      let p = Perm.symm (rt.sort_perm Container container_less g.containers) in
      record {
        group = record {
          named = All-perm _ (λ c. Str-set (group_name c.labels) g.name) p h.group.named;
          lowest = All-perm _ (λ c. ℤ_le_prop g.priority c.labels.priority) p h.group.lowest;
          reached = sym (any-perm _ p) ∙ h.group.reached;
        };
        sorted = rt.sort_sorts Container container_less g.containers container_less-IsOrder;
      }

  map-sort_members-IsShown : (m : Groups) → All IsEntry m → All IsShown (map (sort_members rt) m)
  map-sort_members-IsShown [] h = tt
  map-sort_members-IsShown (e ∷ m) (p, h) = (sort_members-IsShown e p, map-sort_members-IsShown m h)

  members-map-sort_members :
      (m : Groups) → Perm (members (map (sort_members rt) m)) (members (values m))
  unfolding members sort_members
  members-map-sort_members [] = Perm.rfl
  members-map-sort_members ((k, g) ∷ m) =
      Perm.append (rt.sort_perm Container container_less g.containers) (members-map-sort_members m)

  -- Every group that `ListGrouped` returns has a member, its members all carry its name, its
  -- priority is the lowest priority number among them, and they stand in the order of priority
  -- and name.
  pub group_containers-IsShown : (cs : List Container) → All IsShown (group_containers rt cs)
  unfolding group_containers
  group_containers-IsShown cs =
      All-perm IsShown IsShown-prop (Perm.symm (rt.sort_perm ContainerGroup group_less _)) (
        map-sort_members-IsShown _ (
          All-perm IsEntry IsEntry-prop
            (Perm.symm (rt.iterate_perm (Str × ContainerGroup) (group_map cs)))
            (group_map-IsEntry cs)))

  -- The groups that `ListGrouped` returns stand in the order of priority and name.
  pub group_containers-IsSorted :
      (cs : List Container) → IsSorted group_less (group_containers rt cs)
  unfolding group_containers
  group_containers-IsSorted cs = rt.sort_sorts ContainerGroup group_less _ group_less-IsOrder

  -- `ListGrouped` neither loses nor invents nor repeats a container: the members of its groups
  -- are the listed containers.
  pub group_containers-members : (cs : List Container) → Perm (members (group_containers rt cs)) cs
  unfolding group_containers
  group_containers-members cs =
      let m = group_map cs in
      let it = rt.iterate (Str × ContainerGroup) m in
      Perm.trans (members-perm (rt.sort_perm ContainerGroup group_less (map (sort_members rt) it)))
        (Perm.trans (members-map-sort_members it) (
          Perm.trans (members-perm (Perm.map (λ e. e.1) (rt.iterate_perm (Str × ContainerGroup) m)))
            (members-group_map cs)))
