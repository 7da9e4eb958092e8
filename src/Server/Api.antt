-- ===== src/Server/Api.antt =====
-- internal/server/api.go: the handlers of the API, in the form of those of the pages.
use wingstation.Prelude.{Str, bytes, str_eq, List, [], ◌∷◌, none, some, if◌then◌else◌, ℕ}
use wingstation.Cache.{Cache}
use wingstation.Service.Listing.{Cached, search, inspect}
use wingstation.Service.Host.{get_info}
use wingstation.Server.Http.{Request, Call, set_header, write_header, write, Reply, replied}
use wingstation.Server.Site.{
  Payload, containers_json, detail_json, host_json, fields_json, Site, Answers,
}
use wingstation.Server.Handlers.{answer_with, search_params}

module _ (s : Site) where
  -- `writeJSON`
  unfoldable pub write_json : ℕ → Payload → List Call
  write_json status v =
      set_header (bytes "Content-Type") (bytes "application/json")
      ∷ write_header status
      ∷ elim (s.encode v) [ none ↦ [] | some body ↦ write body ∷ [] ]

  abbrev pub error_json : ℕ → Str → List Call
  error_json status msg = write_json status (fields_json ((bytes "error", msg) ∷ []))

  module _ (r : Request) (c : Cache Cached) (i : Answers) where
    -- `handleAPIContainers`
    unfoldable pub handle_api_containers : Reply × Cache Cached
    unfolding write_json
    handle_api_containers =
        let (containers, after) = search s.runtime s.unicode c i.list (search_params r) in
        (
          answer_with containers (λ cs. write_json 200 (containers_json cs))
              (λ e. error_json 500 (bytes "failed to list containers")),
          after,
        )

    -- `handleAPIContainerDetail`
    unfoldable pub handle_api_container_detail : Reply × Cache Cached
    unfolding write_json
    handle_api_container_detail =
        if str_eq r.path_id []
        then (replied (error_json 400 (bytes "missing container id")), c)
        else let (detail, after) = inspect s.unicode s.proto c r.path_id i.inspection in
          (
            answer_with detail (λ d. write_json 200 (detail_json d))
                (λ e. error_json 404 (bytes "container not found")),
            after,
          )

    -- `handleAPIHost`
    unfoldable pub handle_api_host : Reply × Cache Cached
    unfolding write_json
    handle_api_host =
        let (info, after) = get_info c i.host in
        (
          answer_with info (λ h. write_json 200 (host_json h))
              (λ e. error_json 500 (bytes "failed to get host info")),
          after,
        )

    -- `handleHealthz`
    unfoldable pub handle_healthz : Reply × Cache Cached
    unfolding write_json
    handle_healthz = (
      answer_with i.ping
          (λ v. write_json 200 (fields_json ((bytes "status", bytes "healthy") ∷ [])))
          (λ e.
            write_json 503
              (fields_json ((bytes "status", bytes "unhealthy") ∷ (bytes "error", e) ∷ []))),
      c,
    )
