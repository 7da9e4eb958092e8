-- ===== src/Server/Routes/Reach.antt =====
-- The requests among the runs of the cache.
use wingstation.Prelude.{bytes, str_eq, Bool, not, ◌||◌, []}
use wingstation.Cache.{Cache}
use wingstation.Config.{Config}
use wingstation.Service.Listing.{Cached, list_grouped, search}
use wingstation.Service.Listing.Reach.{Reachable, steps, lists, inspects, reads_host}
use wingstation.Server.Http.{Request, Reply}
use wingstation.Server.Site.{Site, Answers}
use wingstation.Server.Handlers.{
  search_params, handle_dashboard, handle_host, handle_partial_containers,
  handle_partial_container_card, handle_partial_detail,
}
use wingstation.Server.Api.{
  handle_api_containers, handle_api_container_detail, handle_api_host, handle_healthz,
}
use wingstation.Server.Middleware.{World}
use wingstation.Server.Routes.{
  Route, static_files, dashboard, host_page, partial_containers, partial_container_card,
  partial_detail, api_containers, api_container_detail, api_host, event_stream, terminal_ws,
  healthz, Mux, run_route, serve,
}
use wingstation.Server.Routes.Keeps.{in_both, serve-keeps}

module _ (s : Site) (i : Answers) (r : Request) where
  abbrev Keeps : (Cache Cached → Reply × Cache Cached) → Type 0
  Keeps h = (c : Cache Cached) → Reachable s.unicode s.proto c → Reachable s.unicode s.proto (h c).1

  handle_dashboard-Keeps : Keeps (λ c. handle_dashboard s r c i)
  unfolding handle_dashboard list_grouped
  handle_dashboard-Keeps c h = steps h (lists c i.list)

  handle_host-Keeps : Keeps (λ c. handle_host s r c i)
  unfolding handle_host
  handle_host-Keeps c h = steps h (reads_host c i.host)

  handle_partial_containers-Keeps : Keeps (λ c. handle_partial_containers s r c i)
  unfolding handle_partial_containers list_grouped search
  handle_partial_containers-Keeps c h =
      let p = search_params r in
      in_both (λ (x : Reply × Cache Cached). Reachable s.unicode s.proto x.1)
        (not (str_eq p.query []) || (not (str_eq p.status []) || not (str_eq p.tag []))) _ _
        (steps h (lists c i.list)) (steps h (lists c i.list))

  handle_partial_container_card-Keeps : Keeps (λ c. handle_partial_container_card s r c i)
  unfolding handle_partial_container_card
  handle_partial_container_card-Keeps c h =
      in_both (λ (x : Reply × Cache Cached). Reachable s.unicode s.proto x.1)
        (str_eq (r.query (bytes "id")) []) _ _ h
        (steps h (inspects c (r.query (bytes "id")) i.inspection))

  handle_partial_detail-Keeps : Keeps (λ c. handle_partial_detail s r c i)
  unfolding handle_partial_detail
  handle_partial_detail-Keeps c h =
      in_both (λ (x : Reply × Cache Cached). Reachable s.unicode s.proto x.1)
        (str_eq (r.query (bytes "id")) []) _ _ h
        (steps h (inspects c (r.query (bytes "id")) i.inspection))

  handle_api_containers-Keeps : Keeps (λ c. handle_api_containers s r c i)
  unfolding handle_api_containers search
  handle_api_containers-Keeps c h = steps h (lists c i.list)

  handle_api_container_detail-Keeps : Keeps (λ c. handle_api_container_detail s r c i)
  unfolding handle_api_container_detail
  handle_api_container_detail-Keeps c h =
      in_both (λ (x : Reply × Cache Cached). Reachable s.unicode s.proto x.1) (str_eq r.path_id [])
        _ _ h (steps h (inspects c r.path_id i.inspection))

  handle_api_host-Keeps : Keeps (λ c. handle_api_host s r c i)
  unfolding handle_api_host
  handle_api_host-Keeps c h = steps h (reads_host c i.host)

  handle_healthz-Keeps : Keeps (λ c. handle_healthz s r c i)
  unfolding handle_healthz
  handle_healthz-Keeps c h = h

module _ (s : Site) (cfg : Config) (i : Answers) (mux : Mux) where
  run_route-keeps :
      (route : Route) (r : Request) (w : World)
      → Reachable s.unicode s.proto w.cache
      → Reachable s.unicode s.proto (run_route s cfg i mux route r w).1.cache
  unfolding run_route
  run_route-keeps static_files r w h = h
  run_route-keeps dashboard r w h = handle_dashboard-Keeps s i r w.cache h
  run_route-keeps host_page r w h = handle_host-Keeps s i r w.cache h
  run_route-keeps partial_containers r w h = handle_partial_containers-Keeps s i r w.cache h
  run_route-keeps partial_container_card r w h = handle_partial_container_card-Keeps s i r w.cache h
  run_route-keeps partial_detail r w h = handle_partial_detail-Keeps s i r w.cache h
  run_route-keeps api_containers r w h = handle_api_containers-Keeps s i r w.cache h
  run_route-keeps api_container_detail r w h = handle_api_container_detail-Keeps s i r w.cache h
  run_route-keeps api_host r w h = handle_api_host-Keeps s i r w.cache h
  run_route-keeps event_stream r w h = h
  run_route-keeps terminal_ws r w h = h
  run_route-keeps healthz r w h = handle_healthz-Keeps s i r w.cache h

  -- Whatever the request, the server leaves the cache in a state that a run of listings,
  -- inspections, host reads, invalidations and sweeps reaches, if it finds it in one.
  pub serve-Reachable :
      (exec_client : Bool) (r : Request) (w : World)
      → Reachable s.unicode s.proto w.cache
      → Reachable s.unicode s.proto (serve s cfg i mux exec_client r w).1.cache
  serve-Reachable exec_client r w h =
      serve-keeps (λ v. Reachable s.unicode s.proto v.cache) (λ v l k. k) s cfg i mux exec_client r
        w h (λ q p e. run_route-keeps p.1 q w h)
