-- ===== src/Service/Listing/Stopped.antt =====
-- The services (internal/service) do not stop the cache that they share.
use wingstation.Prelude.{Str, false, ◌≡◌, refl, ap, ◌∙◌, Option-cases, inl, inr}
use wingstation.Prelude.Int.{ℤ}
use wingstation.Go.Strings.{Unicode}
use wingstation.Go.Result.{Result, ok, err, panic}
use wingstation.Cache.{Cache, get, set, new, sweep, invalidate_all}
use wingstation.Service.Listing.{
  Cached, detail_value, containers_key, inspect_key, store, inspected, inspect, finish_list,
  finish_inspect, invalidate_cache,
}
use wingstation.Service.Host.{host_key, finish_info}
use wingstation.Service.Listing.Reach.{
  Step, lists, inspects, reads_host, invalidates, sweeps, ends_list, ends_inspect, ends_info,
  Reachable, starts, steps, list_containers-miss, list_containers-hit, get_info-miss, get_info-hit,
}

store-stopped :
    {A : Type 0} (c : Cache Cached) (now : ℤ) (k : Str) (wrap : A → Cached) (r : Result A)
    → (store c now k wrap r).1.stopped ≡ c.stopped
unfolding store set
store-stopped c now k wrap (ok a) = refl
store-stopped c now k wrap (err e) = refl
store-stopped c now k wrap panic = refl

module _ (u : Unicode) (proto : Str → Str) where
  Step-stopped : {c d : Cache Cached} → Step u proto c d → d.stopped ≡ c.stopped
  unfolding inspect invalidate_cache invalidate_all sweep finish_list finish_inspect finish_info
      store
  Step-stopped (lists c i) = elim (Option-cases (get c i.asked containers_key)) [
    | inl e ↦ ap (λ x. x.1.stopped) (list_containers-miss u c i e) ∙ store-stopped c i.stored _ _ _
    | inr (v, e) ↦ ap (λ x. x.1.stopped) (list_containers-hit u c i v e)
  ]
  Step-stopped (inspects c id i) = elim (Option-cases (get c i.asked (inspect_key id))) [
    | inl e ↦
        rw (e, inspect)
          (store-stopped c i.stored (inspect_key id) detail_value (inspected u proto id i))
    | inr (v, e) ↦ rw (e, inspect) refl
  ]
  Step-stopped (reads_host c i) = elim (Option-cases (get c i.asked host_key)) [
    | inl e ↦ ap (λ x. x.1.stopped) (get_info-miss c i e) ∙ store-stopped c i.stored _ _ _
    | inr (v, e) ↦ ap (λ x. x.1.stopped) (get_info-hit c i v e)
  ]
  Step-stopped (invalidates c) = refl
  Step-stopped (sweeps c now) = refl
  Step-stopped (ends_list c i) = store-stopped c i.stored _ _ _
  Step-stopped (ends_inspect c id i) = store-stopped c i.stored _ _ _
  Step-stopped (ends_info c i) = store-stopped c i.stored _ _ _

  -- At every moment of a run of the services the cache is not stopped.
  pub Reachable-stopped : {c : Cache Cached} → Reachable u proto c → c.stopped ≡ false
  unfolding new
  Reachable-stopped (starts ttl) = refl
  Reachable-stopped (steps r s) = Step-stopped s ∙ Reachable-stopped r
