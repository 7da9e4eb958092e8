-- ===== src/Server/Routes.antt =====
-- internal/server/server.go: `registerRoutes` and the handler that `New` builds. The
-- `http.ServeMux` and the file server of the static files are parameters.
pub mod Keeps
pub mod Reach
pub mod Auth
pub mod Tidy
pub mod Routed
pub mod Log
pub mod ReadOnly
use mathlib.Core.List.{Mem}
use wingstation.Prelude.{
  Str, bytes, Bool, true, false, List, [], ◌∷◌, ◌++◌, Option, none, some, ◌≡◌, if◌then◌else◌,
}
use wingstation.Cache.{Cache}
use wingstation.Config.{Config}
use wingstation.Service.Listing.{Cached}
use wingstation.Server.Http.{Request, Call, Reply, replied}
use wingstation.Server.Site.{Site, Answers}
use wingstation.Server.Stream.{handle_sse}
use wingstation.Server.Terminal.{handle_terminal_ws}
use wingstation.Server.Handlers.{
  handle_dashboard, handle_host, handle_partial_containers, handle_partial_container_card,
  handle_partial_detail,
}
use wingstation.Server.Api.{
  handle_api_containers, handle_api_container_detail, handle_api_host, handle_healthz,
}
use wingstation.Server.Middleware.{World, Handler, logging, recovery, basic_auth}

-- The handlers.
pub data Route : Type 0 where
  static_files : Route
  dashboard : Route
  host_page : Route
  partial_containers : Route
  partial_container_card : Route
  partial_detail : Route
  api_containers : Route
  api_container_detail : Route
  api_host : Route
  event_stream : Route
  terminal_ws : Route
  healthz : Route

-- `registerRoutes`, from whether there is an exec client.
unfoldable pub registered : Bool → List (Str × Route)
registered exec_client =
    (bytes "GET /static/", static_files)
    ∷ (bytes "GET /{$}", dashboard)
    ∷ (bytes "GET /host", host_page)
    ∷ (bytes "GET /partials/containers", partial_containers)
    ∷ (bytes "GET /partials/container-card", partial_container_card)
    ∷ (bytes "GET /partials/detail", partial_detail)
    ∷ (bytes "GET /api/containers", api_containers)
    ∷ (bytes "GET /api/containers/{id}", api_container_detail)
    ∷ (bytes "GET /api/host", api_host)
    ∷ (bytes "GET /events", event_stream)
    ∷ ((if exec_client then (bytes "GET /ws/terminal", terminal_ws) ∷ [] else [])
        ++ (bytes "GET /healthz", healthz) ∷ [])

-- A mux chooses one of the registered patterns, or answers itself.
pub record Mux : Type 0 where
  pub choose : List (Str × Route) → Request → Option (Str × Route)
  pub choose_registered :
      (ps : List (Str × Route)) (r : Request) (p : Str × Route) → choose ps r ≡ some p → Mem p ps
  pub refuse : Request → List Call
  pub serve_file : Request → List Call

abbrev on_cache : World → Reply × Cache Cached → Reply × World
on_cache w (rep, cache) = (rep, record w { cache = cache })

module _ (s : Site) (cfg : Config) (i : Answers) (mux : Mux) where
  -- The handler of a route.
  unfoldable pub run_route : Route → Handler
  run_route static_files r w = (replied (mux.serve_file r), w)
  run_route dashboard r w = on_cache w (handle_dashboard s r w.cache i)
  run_route host_page r w = on_cache w (handle_host s r w.cache i)
  run_route partial_containers r w = on_cache w (handle_partial_containers s r w.cache i)
  run_route partial_container_card r w = on_cache w (handle_partial_container_card s r w.cache i)
  run_route partial_detail r w = on_cache w (handle_partial_detail s r w.cache i)
  run_route api_containers r w = on_cache w (handle_api_containers s r w.cache i)
  run_route api_container_detail r w = on_cache w (handle_api_container_detail s r w.cache i)
  run_route api_host r w = on_cache w (handle_api_host s r w.cache i)
  run_route event_stream r w = (handle_sse cfg.sse_retry_ms r i.streamed, w)
  run_route terminal_ws r w =
      let (rep, calls) = handle_terminal_ws s.parse_resize i.terminal r in
      (rep, record w { execs = w.execs ++ calls })
  run_route healthz r w = on_cache w (handle_healthz s r w.cache i)

  -- The mux with the routes.
  unfoldable pub serve_mux : Bool → Handler
  unfolding run_route
  serve_mux exec_client r w = elim (mux.choose (registered exec_client) r) [
    | none ↦ (replied (mux.refuse r), w)
    | some p ↦ run_route p.1 r w
  ]

  -- The handler of the server that `New` makes.
  unfoldable pub serve : Bool → Handler
  unfolding serve_mux logging recovery basic_auth
  serve exec_client =
      let inner = logging (recovery (serve_mux exec_client)) in
      if cfg.auth_enabled then basic_auth cfg inner else inner
