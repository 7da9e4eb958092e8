-- ===== src/Service/Listing/Laws.antt =====
-- What the listings promise at every moment of a run.
use wingstation.Prelude.{
  Str, List, none, some, ◌≡◌, ◌≢◌, refl, sym, ◌∙◌, All, ap, not_both, str_eq, str_eq_iff,
  str_eq_refl, subst, arith, Option-cases, inl, inr,
}
use wingstation.Prelude.Int.{ℤ, ◌≤ℤ◌, ◌+ℤ◌}
use wingstation.Go.Strings.{Unicode}
use wingstation.Go.Result.{Result, ok, err, panic, and_then-no_panic}
use wingstation.Cache.{Cache, get, set}
use wingstation.Cache.History.{fresh, get-set}
use wingstation.Docker.Models.{Container, ApiContainer}
use wingstation.Service.Listing.{
  Cached, containers_value, detail_value, host_value, containers_key, inspect_key, ListInput,
  as_containers, store, fetched, list_containers, visible, finish_list,
}
use wingstation.Service.Host.{host_key}
use wingstation.Service.Listing.Visible.{IsVisible, HasLongId, visible-IsListing}
use wingstation.Service.Listing.Typed.{Fits, get-Fits}
use wingstation.Service.Listing.Reach.{
  Reachable, Reachable-IsTyped, fetched-Fits, list_containers-miss, list_containers-hit,
}

-- The result is what was to be stored.
pub store-result :
    {A : Type 0} (c : Cache Cached) (now : ℤ) (k : Str) (wrap : A → Cached) (r : Result A)
    → (store c now k wrap r).0 ≡ r
unfolding store
store-result c now k wrap (ok a) = refl
store-result c now k wrap (err e) = refl
store-result c now k wrap panic = refl

as_containers-IsVisible :
    (v : Cached) (cs : List Container)
    → Fits containers_key v
    → as_containers v ≡ ok cs
    → All IsVisible cs
as_containers-IsVisible (containers_value ds) cs (k, f) h = subst (All IsVisible) (ground arith) f
as_containers-IsVisible (detail_value d) cs f h = cc
as_containers-IsVisible (host_value d) cs f h = cc

-- The keys of the three kinds of values differ.
not_inspect_key : (id : Str) → containers_key ≢ inspect_key id
unfolding str_eq
not_inspect_key id k =
    not_both (str_eq containers_key (inspect_key id))
      ((str_eq_iff containers_key (inspect_key id)).1 k) refl

not_host_key : containers_key ≢ host_key
unfolding str_eq
not_host_key k =
    not_both (str_eq containers_key host_key) ((str_eq_iff containers_key host_key).1 k) refl

as_containers-no_panic : (v : Cached) → Fits containers_key v → as_containers v ≢ panic
as_containers-no_panic (containers_value ds) f = λ p. cc
as_containers-no_panic (detail_value d) (id, k) = absurd (not_inspect_key id k)
as_containers-no_panic (host_value d) k = absurd (not_host_key k)

ok-ne-panic : {A : Type 0} (a : A) → ok a ≢ panic
ok-ne-panic a = λ p. cc

-- The daemon's answer can be converted: its ids have at least twelve bytes.
abbrev pub IsAnswer : Result (List (ℤ × ApiContainer)) → Type 0
IsAnswer (ok cs) = All HasLongId cs
IsAnswer (err e) = Unit
IsAnswer panic = ⊥

module _ (u : Unicode) (proto : Str → Str) where
  -- No listing of any run, from the cache or from the daemon, shows a hidden container.
  pub list_containers-IsVisible :
      (c : Cache Cached) (i : ListInput) (cs : List Container)
      → Reachable u proto c
      → (list_containers u c i).0 ≡ ok cs
      → All IsVisible cs
  list_containers-IsVisible c i cs r h = elim (Option-cases (get c i.asked containers_key)) [
    | inl e ↦
        (fetched-Fits u i cs (
          sym (
            ap (λ p. p.0) (list_containers-miss u c i e)
            ∙ store-result c i.stored containers_key containers_value (fetched u i))
          ∙ h)).1
    | inr (v, e) ↦
        as_containers-IsVisible v cs
          (get-Fits c i.asked containers_key v (Reachable-IsTyped u proto r) e)
          (sym (ap (λ p. p.0) (list_containers-hit u c i v e)) ∙ h)
  ]

  -- What the cache holds under the key of the listing is a listing, at every moment of a run.
  pub cached-no_panic :
      (c : Cache Cached) (now : ℤ) (v : Cached)
      → Reachable u proto c
      → get c now containers_key ≡ some v
      → as_containers v ≢ panic
  cached-no_panic c now v r e =
      as_containers-no_panic v (get-Fits c now containers_key v (Reachable-IsTyped u proto r) e)

  fetched-no_panic : (i : ListInput) → IsAnswer i.answer → fetched u i ≢ panic
  fetched-no_panic i a =
      and_then-no_panic i.answer (visible u) _ (λ p. subst IsAnswer p a)
        (λ cs e p.
          let (ds, converts, _) = visible-IsListing u cs (subst IsAnswer e a) in
          ok-ne-panic ds (sym converts ∙ p))

  -- Nor does the last part of one.
  pub finish_list-no_panic :
      (c : Cache Cached) (i : ListInput) → IsAnswer i.answer → (finish_list u c i).0 ≢ panic
  unfolding finish_list
  finish_list-no_panic c i a =
      subst (λ r. r ≢ panic)
        (sym (store-result c i.stored containers_key containers_value (fetched u i)))
        (fetched-no_panic i a)

  -- No listing of any run panics, neither on the type of what the cache holds nor on an id, if
  -- the ids of the daemon's answer have at least twelve bytes.
  pub list_containers-no_panic :
      (c : Cache Cached) (i : ListInput)
      → Reachable u proto c
      → IsAnswer i.answer
      → (list_containers u c i).0 ≢ panic
  list_containers-no_panic c i r a = elim (Option-cases (get c i.asked containers_key)) [
    | inl e ↦ λ p. fetched-no_panic i a (
        sym (
          ap (λ p. p.0) (list_containers-miss u c i e)
          ∙ store-result c i.stored containers_key containers_value (fetched u i))
        ∙ p)
    | inr (v, e) ↦ λ p.
        as_containers-no_panic v
          (get-Fits c i.asked containers_key v (Reachable-IsTyped u proto r) e)
          (sym (ap (λ p. p.0) (list_containers-hit u c i v e)) ∙ p)
  ]

pub store-ok :
    {A : Type 0} (c : Cache Cached) (now : ℤ) (k : Str) (wrap : A → Cached) (r : Result A) (a : A)
    → r ≡ ok a
    → store c now k wrap r ≡ (ok a, set c now k (wrap a))
unfolding store
store-ok c now k wrap r a h = rw h refl

in_time :
    (ttl now later : ℤ) (v : Cached)
    → later ≤ℤ now +ℤ ttl
    → fresh ttl later (some (now, v)) ≡ some v
in_time ttl now later v l = ground arith

-- What is stored is read within the time to live.
pub get-stored :
    (c : Cache Cached) (now later : ℤ) (k : Str) (v : Cached)
    → later ≤ℤ now +ℤ c.ttl
    → get (set c now k v) later k ≡ some v
get-stored c now later k v l =
    get-set c now later k k v ∙ rw (str_eq_refl k) (in_time c.ttl now later v l)

-- What a listing that asked the daemon leaves in the cache.
pub list_containers-stored :
    (u : Unicode) (c : Cache Cached) (i : ListInput) (cs : List Container) (later : ℤ)
    → get c i.asked containers_key ≡ none
    → (list_containers u c i).0 ≡ ok cs
    → later ≤ℤ i.stored +ℤ c.ttl
    → get (list_containers u c i).1 later containers_key ≡ some (containers_value cs)
list_containers-stored u c i cs later e h l =
    let fetches = store-ok c i.stored containers_key containers_value (fetched u i) cs (
      sym (
        ap (λ p. p.0) (list_containers-miss u c i e)
        ∙ store-result c i.stored containers_key containers_value (fetched u i))
      ∙ h) in
    ap (λ p. get p.1 later containers_key) (list_containers-miss u c i e ∙ fetches)
    ∙ get-stored c i.stored later containers_key (containers_value cs) l

-- After a listing that asked the daemon and returned containers, every listing whose clock
-- reading is within the time to live returns the same containers, whatever the daemon would
-- answer, and leaves the cache as it is.
pub list_containers-cached :
    (u : Unicode) (c : Cache Cached) (i later : ListInput) (cs : List Container)
    → get c i.asked containers_key ≡ none
    → (list_containers u c i).0 ≡ ok cs
    → later.asked ≤ℤ i.stored +ℤ c.ttl
    → list_containers u (list_containers u c i).1 later ≡ (ok cs, (list_containers u c i).1)
list_containers-cached u c i later cs e h l =
    list_containers-hit u (list_containers u c i).1 later (containers_value cs)
      (list_containers-stored u c i cs later.asked e h l)
