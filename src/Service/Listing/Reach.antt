-- ===== src/Service/Listing/Reach.antt =====
-- The cache that the services share, over any run of the program: listings, inspections, host
-- reads, invalidations and sweeps in any order, with any answers of the daemon. A call that finds
-- nothing in the cache asks the daemon without a lock, so that calls overlap: its end is a step of
-- its own, on the cache as it is then.
use wingstation.Prelude.{Str, bytes, List, ◌++◌, none, some, ◌≡◌, refl, Option-cases, inl, inr}
use wingstation.Prelude.Int.{ℤ}
use wingstation.Go.Strings.{Unicode}
use wingstation.Go.Result.{ok, and_then-ok}
use wingstation.Cache.{Cache, get, new, sweep, invalidate_all}
use wingstation.Docker.Models.{Container}
use wingstation.Service.Listing.{
  Cached, containers_value, detail_value, host_value, containers_key, inspect_key, ListInput,
  InspectInput, as_containers, store, fetched, inspected, list_containers, inspect,
  invalidate_cache, visible, finish_list, finish_inspect,
}
use wingstation.Service.Host.{HostInput, host_key, host_answer, as_host, get_info, finish_info}
use wingstation.Service.Listing.Visible.{visible-IsVisible}
use wingstation.Service.Listing.Typed.{Fits, IsTyped, sweep-IsTyped, store-IsTyped}

-- One access to the cache, of the services or of the cleanup goroutine.
pub data Step (u : Unicode) (proto : Str → Str) : Cache Cached → Cache Cached → Type 0 where
  lists : (c : Cache Cached) (i : ListInput) → Step u proto c (list_containers u c i).1
  inspects :
      (c : Cache Cached) (id : Str) (i : InspectInput) → Step u proto c (inspect u proto c id i).1
  reads_host : (c : Cache Cached) (i : HostInput) → Step u proto c (get_info c i).1
  invalidates : (c : Cache Cached) → Step u proto c (invalidate_cache c)
  sweeps : (c : Cache Cached) (now : ℤ) → Step u proto c (sweep now c)
  ends_list : (c : Cache Cached) (i : ListInput) → Step u proto c (finish_list u c i).1
  ends_inspect :
      (c : Cache Cached) (id : Str) (i : InspectInput)
      → Step u proto c (finish_inspect u proto c id i).1
  ends_info : (c : Cache Cached) (i : HostInput) → Step u proto c (finish_info c i).1

pub data Reachable (u : Unicode) (proto : Str → Str) : Cache Cached → Type 0 where
  starts : (ttl : ℤ) → Reachable u proto (new ttl)
  steps : {c d : Cache Cached} → Reachable u proto c → Step u proto c d → Reachable u proto d

-- What a host read does without a live entry, and with one.
pub get_info-miss :
    (c : Cache Cached) (i : HostInput)
    → get c i.asked host_key ≡ none
    → get_info c i ≡ store c i.stored host_key host_value (host_answer i)
unfolding get_info store
get_info-miss c i e = rw (e, get_info) refl

pub get_info-hit :
    (c : Cache Cached) (i : HostInput) (v : Cached)
    → get c i.asked host_key ≡ some v
    → get_info c i ≡ (as_host v, c)
unfolding get_info
get_info-hit c i v e = rw (e, get_info) refl

get_info-IsTyped : (c : Cache Cached) (i : HostInput) → IsTyped c → IsTyped (get_info c i).1
get_info-IsTyped c i t = elim (Option-cases (get c i.asked host_key)) [
  | inl e ↦
      rw (get_info-miss c i e)
        (store-IsTyped c i.stored host_key host_value (host_answer i) t (λ h p. refl))
  | inr (v, e) ↦ rw (get_info-hit c i v e) t
]

module _ (u : Unicode) where
  pub fetched-Fits :
      (i : ListInput) (cs : List Container)
      → fetched u i ≡ ok cs
      → Fits containers_key (containers_value cs)
  fetched-Fits i cs h =
      let (answer, _, e) =
        and_then-ok i.answer (visible u) (λ e. bytes "listing containers: " ++ e) cs h in
      (refl, visible-IsVisible u answer cs e)

  -- What a listing does without a live entry, and with one.
  pub list_containers-miss :
      (c : Cache Cached) (i : ListInput)
      → get c i.asked containers_key ≡ none
      → list_containers u c i ≡ store c i.stored containers_key containers_value (fetched u i)
  unfolding list_containers store
  list_containers-miss c i e = rw (e, list_containers) refl

  pub list_containers-hit :
      (c : Cache Cached) (i : ListInput) (v : Cached)
      → get c i.asked containers_key ≡ some v
      → list_containers u c i ≡ (as_containers v, c)
  unfolding list_containers
  list_containers-hit c i v e = rw (e, list_containers) refl

  list_containers-IsTyped :
      (c : Cache Cached) (i : ListInput) → IsTyped c → IsTyped (list_containers u c i).1
  list_containers-IsTyped c i t = elim (Option-cases (get c i.asked containers_key)) [
    | inl e ↦
        rw (list_containers-miss c i e) (
          store-IsTyped c i.stored containers_key containers_value (fetched u i) t (fetched-Fits i))
    | inr (v, e) ↦ rw (list_containers-hit c i v e) t
  ]

  module _ (proto : Str → Str) where
    inspect-IsTyped :
        (c : Cache Cached) (id : Str) (i : InspectInput)
        → IsTyped c
        → IsTyped (inspect u proto c id i).1
    unfolding inspect store
    inspect-IsTyped c id i t = elim (Option-cases (get c i.asked (inspect_key id))) [
      | inl e ↦
          rw (e, inspect)
            (store-IsTyped c i.stored (inspect_key id) detail_value (inspected u proto id i) t
              (λ d h. (id, refl)))
      | inr (v, e) ↦ rw (e, inspect) t
    ]

    Step-IsTyped : {c d : Cache Cached} → Step u proto c d → IsTyped c → IsTyped d
    unfolding invalidate_cache invalidate_all finish_list finish_inspect finish_info
    Step-IsTyped (lists c i) t = list_containers-IsTyped c i t
    Step-IsTyped (inspects c id i) t = inspect-IsTyped c id i t
    Step-IsTyped (reads_host c i) t = get_info-IsTyped c i t
    Step-IsTyped (invalidates c) t = tt
    Step-IsTyped (sweeps c now) t = sweep-IsTyped c now t
    Step-IsTyped (ends_list c i) t =
        store-IsTyped c i.stored containers_key containers_value (fetched u i) t (fetched-Fits i)
    Step-IsTyped (ends_inspect c id i) t =
        store-IsTyped c i.stored (inspect_key id) detail_value (inspected u proto id i) t
          (λ d h. (id, refl))
    Step-IsTyped (ends_info c i) t =
        store-IsTyped c i.stored host_key host_value (host_answer i) t (λ h p. refl)

    -- In every cache that a run can reach, each key holds a value of the type that is read from
    -- it, and the listing that is held shows no hidden container, also where calls overlap.
    pub Reachable-IsTyped : {c : Cache Cached} → Reachable u proto c → IsTyped c
    unfolding new
    Reachable-IsTyped (starts ttl) = tt
    Reachable-IsTyped (steps r s) = Step-IsTyped s (Reachable-IsTyped r)
