-- ===== src/Server/Handlers/Shown.antt =====
-- internal/server/handlers.go and internal/server/api.go: what the listings show.
use mathlib.Core.List.{foldl, Pairwise}
use mathlib.Core.List.Perm
use wingstation.Prelude.{
  Str, bytes, false, List, [], ◌∷◌, ◌++◌, ◌≡◌, ◌≢◌, refl, map, ◌⊎◌, inl, inr, All, All-filter, ℕ,
}
use wingstation.Prelude.Perm.{All-perm, Bool-set}
use wingstation.Go.Result.{Result, ok, err, panic, and_then}
use wingstation.Cache.{Cache}
use wingstation.Docker.Models.{Container}
use wingstation.Service.Search.{matches_search, search_containers}
use wingstation.Service.Search.Order.{search_containers-sorts, search_containers_correct}
use wingstation.Service.Search.Spec.{Fits, MayPrecede}
use wingstation.Service.Listing.{Cached, list_containers, search}
use wingstation.Service.Listing.Reach.{Reachable}
use wingstation.Service.Listing.Visible.{IsVisible}
use wingstation.Service.Listing.Laws.{IsAnswer, list_containers-IsVisible, list_containers-no_panic}
use wingstation.Server.Http.{Request, write, http_error, replied, sent_status}
use wingstation.Server.Site.{PartialData, containers_json, Site, Answers}
use wingstation.Server.Middleware.{recorded_status, see_call}
use wingstation.Server.Handlers.{search_params, answer_with, render_partial}
use wingstation.Server.Api.{write_json, error_json, handle_api_containers}

-- What the search of a request ought to give: none is hidden, each fits the query of the request,
-- and they stand in the order that it asks for.
pub record IsFound (s : Site) (query : Str → Str) (cs : List Container) : Type 0 where
  pub all_visible : All IsVisible cs
  pub all_fit :
      All
        (Fits s.unicode
          (query (bytes "q"))
          (query (bytes "status"))
          (query (bytes "group"))
          (query (bytes "tag")))
        cs
  pub in_order : Pairwise (MayPrecede (query (bytes "sort"))) cs

-- The containers are a fitting, ordered part of a visible listing.
search_containers-IsFound :
    (s : Site) (r : Request) (cs : List Container)
    → All IsVisible cs
    → IsFound s r.query (search_containers s.runtime s.unicode cs (search_params r))
search_containers-IsFound s r cs v =
    let p = search_params r in
    let (same, _) = search_containers-sorts s.runtime s.unicode cs p in
    let (_, _, fit, _, ordered) = search_containers_correct s.runtime s.unicode cs p in
    record {
      all_visible =
          All-perm IsVisible (λ c. Bool-set _ _) (Perm.symm same)
            (All-filter IsVisible (matches_search s.unicode p) cs v);
      all_fit = fit;
      in_order = ordered;
    }

module _ (s : Site) (r : Request) (c : Cache Cached) (i : Answers) where
  answer-IsFound :
      (listed : Result (List Container))
      → listed ≢ panic
      → ((cs : List Container) → listed ≡ ok cs → All IsVisible cs)
      → (answer_with
            (and_then listed
              (λ cs. ok (search_containers s.runtime s.unicode cs (search_params r)))
              err)
            (λ cs. write_json s 200 (containers_json cs))
            (λ e. error_json s 500 (bytes "failed to list containers"))
          ≡ replied (error_json s 500 (bytes "failed to list containers")))
        ⊎ ((cs : List Container) × IsFound s r.query cs
            × (answer_with
                  (and_then listed
                    (λ cs. ok (search_containers s.runtime s.unicode cs (search_params r)))
                    err)
                  (λ cs. write_json s 200 (containers_json cs))
                  (λ e. error_json s 500 (bytes "failed to list containers"))
                ≡ replied (write_json s 200 (containers_json cs))))
  answer-IsFound (ok cs) n v = inr (_, search_containers-IsFound s r cs (v cs refl), refl)
  answer-IsFound (err e) n v = inl refl
  answer-IsFound panic n v = absurd (n refl)

  -- At every moment of a run, `/api/containers` answers with the error 500, or with 200 and a list
  -- of which no container is hidden, each fits the query of the request, and which stands in the
  -- order that is asked for, if the ids of the daemon's answer have at least twelve bytes.
  pub handle_api_containers-IsFound :
      Reachable s.unicode s.proto c
      → IsAnswer i.list.answer
      → ((handle_api_containers s r c i).0
          ≡ replied (error_json s 500 (bytes "failed to list containers")))
        ⊎ ((cs : List Container) × IsFound s r.query cs
            × ((handle_api_containers s r c i).0 ≡ replied (write_json s 200 (containers_json cs))))
  unfolding handle_api_containers search
  handle_api_containers-IsFound h a =
      answer-IsFound (list_containers s.unicode c i.list).0
        (list_containers-no_panic s.unicode s.proto c i.list h a)
        (λ cs e. list_containers-IsVisible s.unicode s.proto c i.list cs h e)

map-foldl :
    (n : ℕ) (chunks : List Str) (m : Str) (code : ℕ)
    → foldl see_call n (map write chunks ++ http_error m code ∷ []) ≡ code
map-foldl n [] m code = refl
map-foldl n (s ∷ chunks) m code = map-foldl n chunks m code

-- Where a partial's template fails after it has written something, the client is sent 200, while
-- the log's wrapper holds 500.
pub render_partial-recorded_status :
    (s : Site) (name : Str) (d : PartialData) (chunk : Str) (chunks : List Str)
    → s.partials name d ≡ (chunk ∷ chunks, false)
    → (sent_status (render_partial s name d) ≡ 200)
      × (recorded_status (render_partial s name d) ≡ 500)
unfolding render_partial sent_status recorded_status
render_partial-recorded_status s name d chunk chunks e =
    rw (e, render_partial) (refl, map-foldl 200 chunks _ 500)
