-- ===== src/Server/Handlers/Tidy.antt =====
-- internal/server: the replies of the handlers, by the order of their calls.
use wingstation.Prelude.{
  Str, bytes, str_eq, Bool, true, false, not, ◌||◌, List, [], ◌∷◌, some, ◌≡◌, refl, ◌∙◌, ap, map,
  ◌⊎◌, inl, inr, Option-cases, append-nil, if◌then◌else◌, ℕ,
}
use wingstation.Cache.{Cache}
use wingstation.Go.Result.{Result, ok, err, panic}
use wingstation.Service.Listing.{Cached, list_grouped, search, inspect}
use wingstation.Service.Host.{get_info}
use wingstation.Server.Http.{Request, Call, write, http_error, Reply, replied, crashed}
use wingstation.Server.Site.{PageData, no_data, PartialData, Payload, Site, Answers}
use wingstation.Server.Middleware.Status.{
  is_quiet, is_orderly, is_quiet-is_orderly, is_quiet-map-write,
}
use wingstation.Server.Handlers.{
  answer_with, rendered, search_params, render_page, render_partial, render_error, handle_dashboard,
  handle_host, handle_partial_containers, handle_partial_container_card, handle_partial_detail,
  inspected_partial,
}
use wingstation.Server.Api.{
  write_json, handle_api_containers, handle_api_container_detail, handle_api_host, handle_healthz,
}

-- A reply in which no status is set after one was sent, or a panic before any call.
abbrev pub IsTidy : Reply → Type 0
IsTidy rep =
    ((calls : List Call) × (is_orderly calls ≡ true) × (rep ≡ replied calls)) ⊎ (rep ≡ crashed [])

pub replied-IsTidy : (calls : List Call) → is_orderly calls ≡ true → IsTidy (replied calls)
replied-IsTidy calls h = inl (calls, h, refl)

answer_with-IsTidy :
    {A : Type 0} (r : Result A) (good : A → List Call) (bad : Str → List Call)
    → ((a : A) → is_orderly (good a) ≡ true)
    → ((e : Str) → is_orderly (bad e) ≡ true)
    → IsTidy (answer_with r good bad)
answer_with-IsTidy (ok a) good bad p q = replied-IsTidy (good a) (p a)
answer_with-IsTidy (err e) good bad p q = replied-IsTidy (bad e) (q e)
answer_with-IsTidy panic good bad p q = inr refl

-- A template that does not fail, or after which nothing follows, sets no status.
is_quiet-rendered :
    (x : List Str × Bool) (failing : List Call) → x.1 ≡ true → is_quiet (rendered x failing) ≡ true
is_quiet-rendered (chunks, true) failing h = is_quiet-map-write chunks
is_quiet-rendered (chunks, false) failing h = cc

is_quiet-rendered_last : (x : List Str × Bool) → is_quiet (rendered x []) ≡ true
is_quiet-rendered_last (chunks, true) = is_quiet-map-write chunks
is_quiet-rendered_last (chunks, false) =
    ap is_quiet (append-nil (map write chunks)) ∙ is_quiet-map-write chunks

-- There is a dashboard page, and no template fails where its failure sets a status.
pub record NeverFails (s : Site) : Type 0 where
  pub partials_succeed : (name : Str) (d : PartialData) → (s.partials name d).1 ≡ true
  pub error_page : PageData → List Str × Bool
  pub has_error_page : s.pages (bytes "dashboard") ≡ some error_page
  pub error_page_succeeds : (d : PageData) → (error_page d).1 ≡ true

module _ (s : Site) where
  is_orderly-render_page : (page : Str) (d : PageData) → is_orderly (render_page s page d) ≡ true
  unfolding render_page is_orderly is_quiet
  is_orderly-render_page page d = elim (Option-cases (s.pages page)) [
    | inl e ↦ rw (e, is_orderly) refl
    | inr (run, e) ↦
        rw (e, is_orderly)
          (is_quiet-is_orderly (rendered (run d) []) (is_quiet-rendered_last (run d)))
  ]

  is_orderly-write_json : (code : ℕ) (v : Payload) → is_orderly (write_json s code v) ≡ true
  unfolding write_json is_orderly is_quiet
  is_orderly-write_json code v = elim (Option-cases (s.encode v)) [
    | inl e ↦ rw (e, is_orderly) refl
    | inr (body, e) ↦ rw (e, is_orderly) refl
  ]

  module _ (fine : NeverFails s) where
    is_orderly-render_partial :
        (name : Str) (d : PartialData) → is_orderly (render_partial s name d) ≡ true
    unfolding render_partial is_orderly
    is_orderly-render_partial name d =
        let failing = http_error (bytes "Render error") 500 ∷ [] in
        is_quiet-is_orderly (rendered (s.partials name d) failing)
          (is_quiet-rendered (s.partials name d) failing (fine.partials_succeed name d))

    is_orderly-render_error : (msg : Str) (code : ℕ) → is_orderly (render_error s msg code) ≡ true
    unfolding render_error is_orderly is_quiet
    is_orderly-render_error msg code =
        rw (fine.has_error_page, is_orderly)
          (is_quiet-rendered
            (fine.error_page
              (record no_data { title = bytes "Error"; page = bytes "dashboard"; error = msg }))
            (http_error msg code ∷ []) (fine.error_page_succeeds _))

IsTidy-if :
    (b : Bool) (x y : Reply × Cache Cached)
    → IsTidy x.0
    → IsTidy y.0
    → IsTidy (if b then x else y).0
IsTidy-if true x y p q = p
IsTidy-if false x y p q = q

module _ (s : Site) (r : Request) (c : Cache Cached) (i : Answers) where
  pub handle_host-IsTidy : IsTidy (handle_host s r c i).0
  unfolding handle_host
  handle_host-IsTidy =
      answer_with-IsTidy (get_info c i.host).0 _ _ (λ h. is_orderly-render_page s (bytes "host") _)
        (λ e. is_orderly-render_page s (bytes "host") _)

  pub handle_api_containers-IsTidy : IsTidy (handle_api_containers s r c i).0
  unfolding handle_api_containers
  handle_api_containers-IsTidy =
      answer_with-IsTidy (search s.runtime s.unicode c i.list (search_params r)).0 _ _
        (λ cs. is_orderly-write_json s 200 _) (λ e. is_orderly-write_json s 500 _)

  pub handle_api_container_detail-IsTidy : IsTidy (handle_api_container_detail s r c i).0
  unfolding handle_api_container_detail
  handle_api_container_detail-IsTidy =
      IsTidy-if (str_eq r.path_id []) _ _ (replied-IsTidy _ (is_orderly-write_json s 400 _)) (
        answer_with-IsTidy (inspect s.unicode s.proto c r.path_id i.inspection).0 _ _
          (λ d. is_orderly-write_json s 200 _) (λ e. is_orderly-write_json s 404 _))

  pub handle_api_host-IsTidy : IsTidy (handle_api_host s r c i).0
  unfolding handle_api_host
  handle_api_host-IsTidy =
      answer_with-IsTidy (get_info c i.host).0 _ _ (λ h. is_orderly-write_json s 200 _)
        (λ e. is_orderly-write_json s 500 _)

  pub handle_healthz-IsTidy : IsTidy (handle_healthz s r c i).0
  unfolding handle_healthz
  handle_healthz-IsTidy =
      answer_with-IsTidy i.ping _ _ (λ v. is_orderly-write_json s 200 _)
        (λ e. is_orderly-write_json s 503 _)

  module _ (fine : NeverFails s) where
    pub handle_dashboard-IsTidy : IsTidy (handle_dashboard s r c i).0
    unfolding handle_dashboard
    handle_dashboard-IsTidy =
        answer_with-IsTidy (list_grouped s.runtime s.unicode c i.list).0 _ _
          (λ gs. is_orderly-render_page s (bytes "dashboard") _)
          (λ e. is_orderly-render_error s fine _ 500)

    error_is_orderly : (msg : Str) (code : ℕ) → is_orderly (http_error msg code ∷ []) ≡ true
    unfolding is_orderly is_quiet
    error_is_orderly msg code = refl

    pub handle_partial_containers-IsTidy : IsTidy (handle_partial_containers s r c i).0
    unfolding handle_partial_containers
    handle_partial_containers-IsTidy =
        let p = search_params r in
        IsTidy-if (not (str_eq p.query []) || (not (str_eq p.status []) || not (str_eq p.tag []))) _
          _
          (answer_with-IsTidy (search s.runtime s.unicode c i.list p).0 _ _
            (λ cs. is_orderly-render_partial s fine _ _) (λ e. error_is_orderly _ 500))
          (answer_with-IsTidy (list_grouped s.runtime s.unicode c i.list).0 _ _
            (λ gs. is_orderly-render_partial s fine _ _) (λ e. error_is_orderly _ 500))

    inspected_partial-IsTidy : (name : Str) → IsTidy (inspected_partial s r c i name).0
    inspected_partial-IsTidy name =
        let id = r.query (bytes "id") in
        IsTidy-if (str_eq id []) _ _ (replied-IsTidy _ (error_is_orderly _ 400)) (
          answer_with-IsTidy (inspect s.unicode s.proto c id i.inspection).0 _ _
            (λ d. is_orderly-render_partial s fine name _) (λ e. error_is_orderly _ 404))

    pub handle_partial_container_card-IsTidy : IsTidy (handle_partial_container_card s r c i).0
    unfolding handle_partial_container_card
    handle_partial_container_card-IsTidy = inspected_partial-IsTidy (bytes "container_card")

    pub handle_partial_detail-IsTidy : IsTidy (handle_partial_detail s r c i).0
    unfolding handle_partial_detail
    handle_partial_detail-IsTidy = inspected_partial-IsTidy (bytes "detail_panel")
