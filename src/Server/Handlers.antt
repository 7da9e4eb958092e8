-- ===== src/Server/Handlers.antt =====
-- internal/server/handlers.go: the handlers of the pages and of the partials. Each takes the cache
-- that the services share and what the daemon answers, and gives the calls that it makes and the
-- cache.
pub mod Tidy
pub mod Shown
pub mod Grouped
use wingstation.Prelude.{
  Str, bytes, str_eq, Bool, true, false, not, ◌||◌, List, [], ◌∷◌, ◌++◌, Option, none, some, map,
  filter, if◌then◌else◌, ℕ,
}
use wingstation.Prelude.Int.{pos}
use wingstation.Go.Result.{Result, ok, err, panic}
use wingstation.Cache.{Cache}
use wingstation.Docker.Models.{Container, ContainerGroup}
use wingstation.Docker.Detail.{ContainerDetail, HostInfo}
use wingstation.Service.Search.{SearchParams}
use wingstation.Service.Listing.{Cached, list_grouped, search, inspect}
use wingstation.Service.Host.{get_info}
use wingstation.Server.Http.{
  Request, Call, set_header, write_header, write, http_error, Reply, replied, crashed,
}
use wingstation.Server.Site.{
  PageData, no_data, PartialData, page_data, detail_data, Payload, containers_json, detail_json,
  host_json, fields_json, Site, Answers,
}

-- What becomes of a service's result: a panic ends the handler.
abbrev pub answer_with : {A : Type 0} → Result A → (A → List Call) → (Str → List Call) → Reply
answer_with (ok a) good bad = replied (good a)
answer_with (err e) good bad = replied (bad e)
answer_with panic good bad = crashed []

abbrev pub html : Call
html = set_header (bytes "Content-Type") (bytes "text/html; charset=utf-8")

-- What a template writes, and what follows if it fails.
abbrev pub rendered : List Str × Bool → List Call → List Call
rendered (chunks, true) failing = map write chunks
rendered (chunks, false) failing = map write chunks ++ failing

-- The search parameters of the query.
abbrev pub search_params : Request → SearchParams
search_params r = record {
  query = r.query (bytes "q");
  status = r.query (bytes "status");
  group = r.query (bytes "group");
  tag = r.query (bytes "tag");
  sort = r.query (bytes "sort");
}

-- `var filtered`, over the loop.
unfoldable pub groups_named : Str → List ContainerGroup → List ContainerGroup
groups_named name = filter (λ g. str_eq g.name name)

module _ (s : Site) where
  -- `renderPage`
  unfoldable pub render_page : Str → PageData → List Call
  render_page page d = elim (s.pages page) [
    | none ↦ http_error (bytes "Page not found") 404 ∷ []
    | some run ↦ html ∷ rendered (run d) []
  ]

  -- `renderPartial`
  unfoldable pub render_partial : Str → PartialData → List Call
  render_partial name d =
      html ∷ rendered (s.partials name d) (http_error (bytes "Render error") 500 ∷ [])

  -- `renderError`
  unfoldable pub render_error : Str → ℕ → List Call
  render_error msg code = html ∷ write_header code ∷ elim (s.pages (bytes "dashboard")) [
    | none ↦ http_error msg code ∷ []
    | some run ↦
        rendered
          (run (record no_data { title = bytes "Error"; page = bytes "dashboard"; error = msg }))
          (http_error msg code ∷ [])
  ]

  module _ (r : Request) (c : Cache Cached) (i : Answers) where
    -- `handleDashboard`
    unfoldable pub handle_dashboard : Reply × Cache Cached
    unfolding render_page render_error
    handle_dashboard =
        let (groups, after) = list_grouped s.runtime s.unicode c i.list in
        (
          answer_with groups
              (λ gs. render_page (bytes "dashboard") (record no_data {
                title = bytes "Dashboard";
                page = bytes "dashboard";
                groups = some gs;
              }))
              (λ e. render_error (bytes "Failed to list containers") 500),
          after,
        )

    -- `handleHost`
    unfoldable pub handle_host : Reply × Cache Cached
    unfolding render_page
    handle_host =
        let (info, after) = get_info c i.host in
        let page = record no_data { title = bytes "Host Info"; page = bytes "host" } in
        (
          answer_with info (λ h. render_page (bytes "host") (record page { host = some h }))
              (λ e.
                render_page (bytes "host")
                  (record page { error = bytes "Failed to retrieve host information: " ++ e })),
          after,
        )

    -- The first half of `handlePartialContainers`: a flat search, in one group.
    abbrev pub searched_partial : Reply × Cache Cached
    searched_partial =
        let (containers, after) = search s.runtime s.unicode c i.list (search_params r) in
        (
          answer_with containers
              (λ cs. render_partial (bytes "container_list") (
                page_data (record no_data {
                  groups = some (
                      record {
                        name = bytes "Search Results";
                        icon = [];
                        priority = pos 0;
                        containers = cs;
                      }
                      ∷ []);
                })))
              (λ e. http_error (bytes "Search failed") 500 ∷ []),
          after,
        )

    -- The second half: the groups, or those of one name.
    abbrev pub grouped_partial : Reply × Cache Cached
    grouped_partial =
        let group = r.query (bytes "group") in
        let (groups, after) = list_grouped s.runtime s.unicode c i.list in
        (
          answer_with groups
              (λ gs. render_partial (bytes "container_list") (
                page_data (record no_data {
                  groups = some (if not (str_eq group []) then groups_named group gs else gs);
                })))
              (λ e. http_error (bytes "Failed to list containers") 500 ∷ []),
          after,
        )

    -- `handlePartialContainers`
    unfoldable pub handle_partial_containers : Reply × Cache Cached
    unfolding render_partial groups_named
    handle_partial_containers =
        let p = search_params r in
        if not (str_eq p.query []) || (not (str_eq p.status []) || not (str_eq p.tag []))
        then searched_partial
        else grouped_partial

    -- The handlers of the card and of the panel differ in the name of the partial.
    abbrev pub inspected_partial : Str → Reply × Cache Cached
    inspected_partial name =
        let id = r.query (bytes "id") in
        if str_eq id []
        then (replied (http_error (bytes "Missing id parameter") 400 ∷ []), c)
        else let (detail, after) = inspect s.unicode s.proto c id i.inspection in
          (
            answer_with detail (λ d. render_partial name (detail_data d))
                (λ e. http_error (bytes "Container not found") 404 ∷ []),
            after,
          )

    -- `handlePartialContainerCard`
    unfoldable pub handle_partial_container_card : Reply × Cache Cached
    unfolding render_partial
    handle_partial_container_card = inspected_partial (bytes "container_card")

    -- `handlePartialDetail`
    unfoldable pub handle_partial_detail : Reply × Cache Cached
    unfolding render_partial
    handle_partial_detail = inspected_partial (bytes "detail_panel")
