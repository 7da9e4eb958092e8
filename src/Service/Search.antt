-- ===== src/Service/Search.antt =====
-- internal/service/container.go: `Search`, from the listed containers on.
pub mod Spec
pub mod Order
pub mod Case
use wingstation.Prelude.{
  Str, bytes, str_eq, str_lt, Bool, true, false, not, ◌&&◌, ◌||◌, List, [], if◌then◌else◌, filter,
}
use wingstation.Prelude.Int.{ltb_ℤ}
use wingstation.Go.Strings.{Unicode, equal_fold, to_lower, contains}
use wingstation.Go.Runtime.{Runtime}
use wingstation.Docker.Labels.{group_name, display_name, has_tag}
use wingstation.Docker.Models.{Container}
use wingstation.Service.Groups.{container_less}

pub record SearchParams : Type 0 where
  pub query : Str
  pub status : Str
  pub group : Str
  pub tag : Str
  pub sort : Str

-- The test of the query, on the lower case name and image and on the short id.
unfoldable pub query_hits : Unicode → Container → Str → Bool
query_hits u c q =
    contains (to_lower u (display_name c.labels c.name)) q
    || (contains (to_lower u c.image) q || contains c.short_id q)

unfoldable pub matches_search : Unicode → SearchParams → Container → Bool
unfolding query_hits
matches_search u p c =
    if not (str_eq p.status []) && not (equal_fold u c.state p.status)
    then false
    else if not (str_eq p.group []) && not (equal_fold u (group_name c.labels) p.group)
    then false
    else if not (str_eq p.tag []) && not (has_tag u c.labels p.tag)
    then false
    else if not (str_eq p.query []) && not (query_hits u c (to_lower u p.query))
    then false
    else true

-- The `less` that `sortContainers` chooses.
unfoldable pub sort_less : Str → Container → Container → Bool
sort_less sort_by a b =
    if str_eq sort_by (bytes "name")
    then str_lt a.name b.name
    else if str_eq sort_by (bytes "status")
    then str_lt a.state b.state
    else if str_eq sort_by (bytes "created")
    then ltb_ℤ b.created a.created
    else container_less a b

unfoldable pub sort_containers : Runtime → List Container → Str → List Container
unfolding sort_less
sort_containers rt containers sort_by = rt.sort Container (sort_less sort_by) containers

unfoldable pub search_containers :
    Runtime → Unicode → List Container → SearchParams → List Container
unfolding matches_search sort_containers
search_containers rt u containers p =
    sort_containers rt (filter (matches_search u p) containers) p.sort
