-- ===== src/Service/Listing.antt =====
-- internal/service/container.go: the methods of `ContainerService`, on the cache that it shares
-- with `HostService`. The answers of the Docker daemon and the readings of the clock are inputs.
pub mod Visible
pub mod Typed
pub mod Reach
pub mod Laws
pub mod Race
pub mod Stopped
use wingstation.Prelude.{
  Str, bytes, str_eq, Bool, true, false, not, List, [], ◌∷◌, ◌++◌, Option, none, some,
  if◌then◌else◌,
}
use wingstation.Prelude.Int.{ℤ}
use wingstation.Go.Strings.{Unicode}
use wingstation.Go.Runtime.{Runtime}
use wingstation.Go.Result.{Result, ok, err, panic, and_then}
use wingstation.Cache.{Cache, get, set, invalidate_all}
use wingstation.Docker.Models.{Container, ContainerGroup, ApiContainer, container_from_api}
use wingstation.Docker.Detail.{ContainerDetail, HostInfo}
use wingstation.Docker.Inspect.{InspectResponse}
use wingstation.Service.Groups.{group_containers}
use wingstation.Service.Search.{SearchParams, search_containers}
use wingstation.Service.Detail.{detail_from_inspect}

-- What the program puts into the cache, as `any`.
pub data Cached : Type 0 where
  containers_value : List Container → Cached
  detail_value : ContainerDetail → Cached
  host_value : HostInfo → Cached

abbrev pub containers_key : Str
containers_key = bytes "containers"

abbrev pub inspect_key : Str → Str
inspect_key id = bytes "inspect:" ++ id

-- The inputs of a listing: the clock at `Get`, what `ContainerList` returns, each container with
-- the clock at its conversion, and the clock at `Set`.
pub record ListInput : Type 0 where
  pub asked : ℤ
  pub answer : Result (List (ℤ × ApiContainer))
  pub stored : ℤ

-- The inputs of an inspection.
pub record InspectInput : Type 0 where
  pub asked : ℤ
  pub answer : Result InspectResponse
  pub stored : ℤ

-- The loop over the API's containers.
unfoldable pub visible : Unicode → List (ℤ × ApiContainer) → Result (List Container)
visible u [] = ok []
visible u ((now, c) ∷ cs) =
    and_then (container_from_api u now c)
      (λ dc.
        and_then (visible u cs) (λ rest. if not dc.labels.hide then ok (dc ∷ rest) else ok rest)
          err)
      err

-- `cached.([]docker.Container)`
abbrev pub as_containers : Cached → Result (List Container)
as_containers (containers_value cs) = ok cs
as_containers (detail_value d) = panic
as_containers (host_value h) = panic

-- `cached.(*docker.ContainerDetail)`
abbrev pub as_detail : Cached → Result ContainerDetail
as_detail (containers_value cs) = panic
as_detail (detail_value d) = ok d
as_detail (host_value h) = panic

-- A result is stored under the key, if it is a value.
unfoldable pub store :
    {A : Type 0} → Cache Cached → ℤ → Str → (A → Cached) → Result A → Result A × Cache Cached
store c now key wrap (ok a) = (ok a, set c now key (wrap a))
store c now key wrap (err e) = (err e, c)
store c now key wrap panic = (panic, c)

-- What the daemon's answer becomes.
abbrev pub fetched : Unicode → ListInput → Result (List Container)
fetched u i = and_then i.answer (visible u) (λ e. err (bytes "listing containers: " ++ e))

-- `List`
unfoldable pub list_containers :
    Unicode → Cache Cached → ListInput → Result (List Container) × Cache Cached
unfolding store
list_containers u c i = elim (get c i.asked containers_key) [
  | some v ↦ (as_containers v, c)
  | none ↦ store c i.stored containers_key containers_value (fetched u i)
]

-- The last part of `List`, on the cache as it is when the daemon has answered: between its `Get`
-- and its `Set`, `List` holds no lock.
unfoldable pub finish_list :
    Unicode → Cache Cached → ListInput → Result (List Container) × Cache Cached
unfolding store
finish_list u c i = store c i.stored containers_key containers_value (fetched u i)

-- `ListGrouped`
unfoldable pub list_grouped :
    Runtime → Unicode → Cache Cached → ListInput → Result (List ContainerGroup) × Cache Cached
unfolding list_containers
list_grouped rt u c i =
    let (containers, after) = list_containers u c i in
    (and_then containers (λ cs. ok (group_containers rt cs)) err, after)

-- `Search`
unfoldable pub search :
    Runtime
    → Unicode
    → Cache Cached
    → ListInput
    → SearchParams
    → Result (List Container) × Cache Cached
unfolding list_containers
search rt u c i p =
    let (containers, after) = list_containers u c i in
    (and_then containers (λ cs. ok (search_containers rt u cs p)) err, after)

-- What the daemon's answer to an inspection becomes.
abbrev pub inspected : Unicode → (Str → Str) → Str → InspectInput → Result ContainerDetail
inspected u proto id i =
    and_then i.answer (detail_from_inspect u proto)
      (λ e. err (bytes "inspecting container " ++ (id ++ (bytes ": " ++ e))))

-- `Inspect`
unfoldable pub inspect :
    Unicode
    → (Str → Str)
    → Cache Cached
    → Str
    → InspectInput
    → Result ContainerDetail × Cache Cached
unfolding store
inspect u proto c id i = elim (get c i.asked (inspect_key id)) [
  | some v ↦ (as_detail v, c)
  | none ↦ store c i.stored (inspect_key id) detail_value (inspected u proto id i)
]

-- The last part of `Inspect`, as that of `List`.
unfoldable pub finish_inspect :
    Unicode
    → (Str → Str)
    → Cache Cached
    → Str
    → InspectInput
    → Result ContainerDetail × Cache Cached
unfolding store
finish_inspect u proto c id i =
    store c i.stored (inspect_key id) detail_value (inspected u proto id i)

-- `InvalidateCache`
unfoldable pub invalidate_cache : Cache Cached → Cache Cached
invalidate_cache c = invalidate_all c
