-- ===== src/Service/Asked/Laws.antt =====
-- How often the services ask the Docker daemon.
use wingstation.Prelude.{List, [], ◌∷◌, none, some, ◌≡◌, refl, ap, ap₂, ◌∙◌, ◌++◌, All, All-imp}
use wingstation.Prelude.Int.{◌≤ℤ◌, ◌+ℤ◌}
use wingstation.Go.Strings.{Unicode}
use wingstation.Go.Result.{ok}
use wingstation.Cache.{Cache, get}
use wingstation.Docker.Client.{container_list}
use wingstation.Docker.Models.{Container}
use wingstation.Service.Listing.{
  Cached, containers_value, containers_key, ListInput, list_containers,
}
use wingstation.Service.Listing.Reach.{list_containers-hit}
use wingstation.Service.Listing.Laws.{list_containers-stored}
use wingstation.Service.Asked.{list_asks, listings_ask}

module _ (u : Unicode) where
  list_asks-hit :
      (c : Cache Cached) (i : ListInput) (v : Cached)
      → get c i.asked containers_key ≡ some v
      → list_asks c i ≡ []
  unfolding list_asks
  list_asks-hit c i v e = rw (e, list_asks) refl

  list_asks-miss :
      (c : Cache Cached) (i : ListInput)
      → get c i.asked containers_key ≡ none
      → list_asks c i ≡ container_list ∷ []
  unfolding list_asks
  list_asks-miss c i e = rw (e, list_asks) refl

  -- While the cache holds a listing, the daemon is not asked.
  listings_ask-held :
      (c : Cache Cached) (v : Cached) (is : List ListInput)
      → All (λ i. get c i.asked containers_key ≡ some v) is
      → listings_ask u c is ≡ []
  unfolding listings_ask
  listings_ask-held c v [] h = refl
  listings_ask-held c v (i ∷ is) (e, h) = ap₂ ◌++◌ (list_asks-hit c i v e) (
      ap (λ d. listings_ask u d is) (ap (λ x. x.1) (list_containers-hit u c i v e))
      ∙ listings_ask-held c v is h)

  within :
      (c : Cache Cached) (i : ListInput) (cs : List Container) (is : List ListInput)
      → get c i.asked containers_key ≡ none
      → (list_containers u c i).0 ≡ ok cs
      → All (λ j. j.asked ≤ℤ i.stored +ℤ c.ttl) is
      → All
          (λ j. get (list_containers u c i).1 j.asked containers_key ≡ some (containers_value cs))
          is
  within c i cs [] e h l = tt
  within c i cs (j ∷ is) e h (l, ls) =
      (list_containers-stored u c i cs j.asked e h l, within c i cs is e h ls)

  -- Of listings one after the other, of which the first finds nothing in the cache and succeeds and
  -- the others come within the time to live after it, only the first asks the daemon, and only
  -- once: the others return the same containers, whatever the daemon would answer.
  pub listings_ask-once :
      (c : Cache Cached) (i : ListInput) (is : List ListInput) (cs : List Container)
      → get c i.asked containers_key ≡ none
      → (list_containers u c i).0 ≡ ok cs
      → All (λ j. j.asked ≤ℤ i.stored +ℤ c.ttl) is
      → (listings_ask u c (i ∷ is) ≡ container_list ∷ [])
        × All
            (λ j.
              list_containers u (list_containers u c i).1 j ≡ (ok cs, (list_containers u c i).1))
            is
  unfolding listings_ask
  listings_ask-once c i is cs e h l =
      let held = within c i cs is e h l in
      (
        ap₂ ◌++◌ (list_asks-miss c i e)
            (listings_ask-held (list_containers u c i).1 (containers_value cs) is held),
        All-imp _ _
            (λ j found.
              list_containers-hit u (list_containers u c i).1 j (containers_value cs) found)
            is held,
      )
