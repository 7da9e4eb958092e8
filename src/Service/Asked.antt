-- ===== src/Service/Asked.antt =====
-- internal/service: what the services ask the Docker daemon through the read-only client.
pub mod Laws
use wingstation.Prelude.{Str, List, [], ◌∷◌, ◌++◌, none, some}
use wingstation.Go.Strings.{Unicode}
use wingstation.Go.Result.{Result, ok, err, panic}
use wingstation.Cache.{Cache, get}
use wingstation.Docker.Client.{
  ReadOnlyCall, container_list, container_inspect, info, ping, disk_usage,
}
use wingstation.Service.Listing.{
  Cached, containers_key, inspect_key, ListInput, InspectInput, list_containers,
}
use wingstation.Service.Host.{HostInput, host_key}

-- The calls of `List`.
unfoldable pub list_asks : Cache Cached → ListInput → List ReadOnlyCall
list_asks c i = elim (get c i.asked containers_key) [ some v ↦ [] | none ↦ container_list ∷ [] ]

-- The calls of `Inspect`.
unfoldable pub inspect_asks : Cache Cached → Str → InspectInput → List ReadOnlyCall
inspect_asks c id i = elim (get c i.asked (inspect_key id)) [
  | some v ↦ []
  | none ↦ container_inspect id ∷ []
]

-- What follows an answer, if it is one.
abbrev pub if_answered : {A : Type 0} → Result A → List ReadOnlyCall → List ReadOnlyCall
if_answered (ok a) calls = calls
if_answered (err e) calls = []
if_answered panic calls = []

-- The calls of `GetInfo`.
unfoldable pub info_asks : Cache Cached → HostInput → List ReadOnlyCall
info_asks c i = elim (get c i.asked host_key) [
  | some v ↦ []
  | none ↦ info ∷ if_answered i.info (ping ∷ if_answered i.ping (disk_usage ∷ []))
]

-- The calls of listings, one after the other.
unfoldable pub listings_ask : Unicode → Cache Cached → List ListInput → List ReadOnlyCall
unfolding list_asks list_containers
listings_ask u c [] = []
listings_ask u c (i ∷ is) = list_asks c i ++ listings_ask u (list_containers u c i).1 is
