-- ===== src/Service/Listing/Race.antt =====
-- A listing (internal/service/container.go) whose answer comes after an invalidation.
use wingstation.Prelude.{List, none, ◌≡◌, ◌∙◌, ap}
use wingstation.Prelude.Int.{◌≤ℤ◌, ◌+ℤ◌}
use wingstation.Go.Strings.{Unicode}
use wingstation.Go.Result.{ok}
use wingstation.Cache.{Cache, get, invalidate_all}
use wingstation.Docker.Models.{Container}
use wingstation.Service.Listing.{
  Cached, containers_value, ListInput, containers_key, fetched, list_containers, finish_list,
  invalidate_cache,
}
use wingstation.Service.Listing.Reach.{list_containers-miss, list_containers-hit}
use wingstation.Service.Listing.Laws.{store-ok, get-stored}

-- Where the cache is invalidated while a listing waits for the daemon, and the listing succeeds, it
-- stores the answer from before the invalidation all the same: until the time to live has passed,
-- every later listing returns it, whatever the daemon would answer then.
pub finish_list-stale :
    (u : Unicode) (c : Cache Cached) (i later : ListInput) (cs : List Container)
    → fetched u i ≡ ok cs
    → later.asked ≤ℤ i.stored +ℤ c.ttl
    → (list_containers u (finish_list u (invalidate_cache c) i).1 later).0 ≡ ok cs
unfolding invalidate_cache invalidate_all finish_list
finish_list-stale u c i later cs e l =
    let empty = invalidate_cache c in
    let after =
      ap (λ p. p.1) (store-ok empty i.stored containers_key containers_value (fetched u i) cs e) in
    ap (λ p. p.0)
      (list_containers-hit u (finish_list u empty i).1 later (containers_value cs) (
        ap (λ d. get d later.asked containers_key) after
        ∙ get-stored empty i.stored later.asked containers_key (containers_value cs) l))

-- Undisturbed, the two parts are the listing.
pub finish_list-list_containers :
    (u : Unicode) (c : Cache Cached) (i : ListInput)
    → get c i.asked containers_key ≡ none
    → list_containers u c i ≡ finish_list u c i
unfolding finish_list
finish_list-list_containers u c i e = list_containers-miss u c i e
