-- ===== src/Server/Handlers/Grouped.antt =====
-- internal/server/handlers.go: the group filter of `handlePartialContainers`.
use mathlib.Core.List.{Perm}
use wingstation.Prelude.{
  Str, str_eq, Bool, true, false, List, [], ◌∷◌, ◌++◌, ◌≡◌, refl, sym, ◌∙◌, ap₂, subst, inl, inr,
  All, All-imp, filter, Bool-cases,
}
use wingstation.Prelude.Perm.{filter-perm, filter-append, filter-All-true, filter-All-false}
use wingstation.Go.Runtime.{Runtime}
use wingstation.Docker.Labels.{group_name}
use wingstation.Docker.Models.{Container, ContainerGroup}
use wingstation.Service.Groups.{group_containers}
use wingstation.Service.Groups.Collect.{members}
use wingstation.Service.Groups.Sorted.{IsShown, group_containers-IsShown, group_containers-members}
use wingstation.Server.Handlers.{groups_named}

module _ (name : Str) where
  in_group : Container → Bool
  in_group c = str_eq (group_name c.labels) name

  -- The members of a group carry its name.
  in_group-members :
      (g : ContainerGroup) (b : Bool)
      → IsShown g
      → str_eq g.name name ≡ b
      → All (λ c. in_group c ≡ b) g.containers
  unfolding in_group
  in_group-members g b h e =
      All-imp (λ c. group_name c.labels ≡ g.name) (λ c. in_group c ≡ b) (λ c n. rw n e) g.containers
        h.group.named

  members-groups_named :
      (gs : List ContainerGroup)
      → All IsShown gs
      → members (groups_named name gs) ≡ filter in_group (members gs)
  unfolding members groups_named filter
  members-groups_named [] h = refl
  members-groups_named (g ∷ gs) (p, h) = elim (Bool-cases (str_eq g.name name)) [
    | inl e ↦ rw e (
        ap₂ ◌++◌ (sym (filter-All-true in_group g.containers (in_group-members g true p e)))
          (members-groups_named gs h)
        ∙ sym (filter-append in_group g.containers (members gs)))
    | inr e ↦ rw e (
        members-groups_named gs h
        ∙ ap₂ ◌++◌ (sym (filter-All-false in_group g.containers (in_group-members g false p e)))
            refl
        ∙ sym (filter-append in_group g.containers (members gs)))
  ]

  -- The group filter of the partial keeps exactly the listed containers whose group has that name,
  -- each as often as it is listed, whatever the order of the map and of the sorting.
  pub groups_named-members :
      (rt : Runtime) (cs : List Container)
      → Perm
          (members (groups_named name (group_containers rt cs)))
          (filter (λ c. str_eq (group_name c.labels) name) cs)
  unfolding in_group
  groups_named-members rt cs =
      subst (λ l. Perm l (filter in_group cs))
        (sym (members-groups_named (group_containers rt cs) (group_containers-IsShown rt cs)))
        (filter-perm in_group (group_containers-members rt cs))
