-- ===== src/Service/Groups.antt =====
-- internal/service/container.go: `ListGrouped`, from the listed containers on.
pub mod Order
pub mod Collect
pub mod Sorted
pub mod Determined
use mathlib.Core.List.{foldl}
use wingstation.Prelude.{
  Str, Bool, not, List, [], ◌∷◌, ◌++◌, Option, none, some, if◌then◌else◌, map,
}
use wingstation.Prelude.Int.{ℤ, ltb_ℤ, ◌==ℤ◌}
use wingstation.Prelude.{str_lt}
use wingstation.Go.Map.{lookup, insert}
use wingstation.Go.Runtime.{Runtime}
use wingstation.Docker.Labels.{group_name}
use wingstation.Docker.Models.{Container, ContainerGroup}

-- By priority, then by name: the comparison of both sorts.
unfoldable pub ranks : ℤ → Str → ℤ → Str → Bool
ranks p n q m = if not (p ==ℤ q) then ltb_ℤ p q else str_lt n m

unfoldable pub container_less : Container → Container → Bool
unfolding ranks
container_less a b = ranks a.labels.priority a.name b.labels.priority b.name

unfoldable pub group_less : ContainerGroup → ContainerGroup → Bool
unfolding ranks
group_less a b = ranks a.priority a.name b.priority b.name

abbrev pub Groups : Type 0
Groups = List (Str × ContainerGroup)

-- The group that a container opens.
abbrev pub opened : Container → ContainerGroup
opened c = record {
  name = group_name c.labels;
  icon = c.labels.icon;
  priority = c.labels.priority;
  containers = [];
}

-- What `g = groupMap[gName]` is, after the new group is put there.
abbrev pub found_or_opened : Option ContainerGroup → Container → ContainerGroup
found_or_opened none c = opened c
found_or_opened (some g) c = g

-- The group with the container appended, and the lowest priority number of the two.
unfoldable pub joined : ContainerGroup → Container → ContainerGroup
joined g c = record g {
  containers = g.containers ++ c ∷ [];
  priority = if ltb_ℤ c.labels.priority g.priority then c.labels.priority else g.priority;
}

-- One round of the loop over the containers. The map holds pointers, so that what is written
-- to the group is in the map.
unfoldable pub add_to_group : Groups → Container → Groups
unfolding joined
add_to_group groups c =
    let name = group_name c.labels in
    insert name (joined (found_or_opened (lookup name groups) c) c) groups

unfoldable pub group_map : List Container → Groups
unfolding add_to_group
group_map = foldl add_to_group []

module _ (rt : Runtime) where
  -- The body of the loop over the map.
  unfoldable pub sort_members : Str × ContainerGroup → ContainerGroup
  unfolding container_less
  sort_members (k, g) = record g { containers = rt.sort Container container_less g.containers }

  unfoldable pub group_containers : List Container → List ContainerGroup
  unfolding sort_members group_map group_less
  group_containers containers =
      rt.sort ContainerGroup group_less
        (map sort_members (rt.iterate (Str × ContainerGroup) (group_map containers)))
