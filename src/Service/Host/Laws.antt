-- ===== src/Service/Host/Laws.antt =====
-- How `GetInfo` (internal/service/host.go) ends at any moment of a run.
use wingstation.Prelude.{
  Str, str_eq, str_eq_iff, not_both, Bool, List, [], ◌∷◌, Option, none, some, ◌≢◌, refl, sym, ◌∙◌,
  ap, All, Option-cases, inl, inr,
}
use wingstation.Prelude.Int.{ℤ}
use wingstation.Go.Strings.{Unicode}
use wingstation.Go.Result.{Result, ok, err, panic, and_then-no_panic}
use wingstation.Cache.{Cache, get}
use wingstation.Docker.Detail.{HostInfo}
use wingstation.Service.Listing.{
  Cached, containers_value, detail_value, host_value, containers_key, inspect_key,
}
use wingstation.Service.Listing.Typed.{Fits, get-Fits}
use wingstation.Service.Listing.Reach.{Reachable, Reachable-IsTyped, get_info-miss, get_info-hit}
use wingstation.Service.Listing.Laws.{store-result}
use wingstation.Service.Host.{
  host_key, DiskUsage, HostInput, add_sizes, with_usage, host_info_from_api, host_answer, as_host,
  get_info,
}

ok-ne_panic : {A : Type 0} (a : A) → ok a ≢ panic
ok-ne_panic a = λ p. cc

-- No size is behind a nil pointer.
abbrev pub AreSizes : List (Option ℤ) → Type 0
AreSizes = All (λ s. s ≢ none)

-- The daemon answers without a nil pointer, or with an error.
abbrev pub IsUsage : Result DiskUsage → Type 0
IsUsage (ok du) =
    AreSizes du.images × AreSizes du.containers × AreSizes du.volumes × AreSizes du.build_cache
IsUsage (err e) = Unit
IsUsage panic = ⊥

pub record IsHostAnswer (i : HostInput) : Type 0 where
  pub info_returns : i.info ≢ panic
  pub ping_returns : i.ping ≢ panic
  pub usage_returns : IsUsage i.usage

add_sizes-no_panic :
    (counts : ℤ → Bool) (sizes : List (Option ℤ)) (total : ℤ)
    → AreSizes sizes
    → add_sizes counts total sizes ≢ panic
unfolding add_sizes
add_sizes-no_panic counts [] total h = ok-ne_panic total
add_sizes-no_panic counts (none ∷ sizes) total (n, h) = absurd (n refl)
add_sizes-no_panic counts (some s ∷ sizes) total (n, h) = add_sizes-no_panic counts sizes _ h

with_usage-no_panic : (h : HostInfo) (r : Result DiskUsage) → IsUsage r → with_usage h r ≢ panic
unfolding with_usage
with_usage-no_panic h (err e) u = ok-ne_panic h
with_usage-no_panic h panic u = absurd u
with_usage-no_panic h (ok du) (is, cs, vs, bs) =
    and_then-no_panic _ _ (λ e. e) (add_sizes-no_panic _ du.images _ is)
      (λ i _.
        and_then-no_panic _ _ (λ e. e) (add_sizes-no_panic _ du.containers _ cs)
          (λ c _.
            and_then-no_panic _ _ (λ e. e) (add_sizes-no_panic _ du.volumes _ vs)
              (λ v _.
                and_then-no_panic _ _ (λ e. e) (add_sizes-no_panic _ du.build_cache _ bs)
                  (λ b _. ok-ne_panic _))))

host_answer-no_panic : (i : HostInput) → IsHostAnswer i → host_answer i ≢ panic
unfolding host_answer
host_answer-no_panic i a = and_then-no_panic i.info _ _ a.info_returns (λ info _.
    and_then-no_panic i.ping _ _ a.ping_returns
      (λ ver _. with_usage-no_panic (host_info_from_api info ver) i.usage a.usage_returns))

not_containers_key : host_key ≢ containers_key
unfolding str_eq
not_containers_key k =
    not_both (str_eq host_key containers_key) ((str_eq_iff host_key containers_key).1 k) refl

not_inspect_key_host : (id : Str) → host_key ≢ inspect_key id
unfolding str_eq
not_inspect_key_host id k =
    not_both (str_eq host_key (inspect_key id)) ((str_eq_iff host_key (inspect_key id)).1 k) refl

as_host-no_panic : (v : Cached) → Fits host_key v → as_host v ≢ panic
as_host-no_panic (containers_value cs) (k, _) = absurd (not_containers_key k)
as_host-no_panic (detail_value d) (id, k) = absurd (not_inspect_key_host id k)
as_host-no_panic (host_value h) f = ok-ne_panic h

-- At every moment of a run `GetInfo` returns host information or an error, and does not panic,
-- neither on the type of what the cache holds nor on the daemon's answers, if the calls of the
-- daemon return and no size in the disk usage is behind a nil pointer.
pub get_info-no_panic :
    (u : Unicode) (proto : Str → Str) (c : Cache Cached) (i : HostInput)
    → Reachable u proto c
    → IsHostAnswer i
    → (get_info c i).0 ≢ panic
get_info-no_panic u proto c i r a = elim (Option-cases (get c i.asked host_key)) [
  | inl e ↦ λ p. host_answer-no_panic i a (
      sym (
        ap (λ q. q.0) (get_info-miss c i e)
        ∙ store-result c i.stored host_key host_value (host_answer i))
      ∙ p)
  | inr (v, e) ↦ λ p.
      as_host-no_panic v (get-Fits c i.asked host_key v (Reachable-IsTyped u proto r) e)
        (sym (ap (λ q. q.0) (get_info-hit c i v e)) ∙ p)
]
