-- ===== src/Main/Run/Shown.antt =====
-- What a running program (cmd/wingstation/main.go) answers to a search.
use mathlib.Core.List.{foldl}
use wingstation.Prelude.{Str, bytes, List, ◌≡◌, true, some, All, ◌⊎◌, inl, inr, ◌∙◌, ap, Bool}
use wingstation.Prelude.Int.{pos, ltb_ℤ}
use wingstation.Cache.{Cache}
use wingstation.Config.{Config}
use wingstation.Docker.Models.{Container}
use wingstation.Service.Listing.{Cached}
use wingstation.Service.Listing.Laws.{IsAnswer}
use wingstation.Service.Listing.Reach.{Reachable}
use wingstation.Server.Http.{Request, Reply, replied}
use wingstation.Server.Site.{Site, Answers, containers_json}
use wingstation.Server.Handlers.Shown.{IsFound, handle_api_containers-IsFound}
use wingstation.Server.Api.{error_json, write_json, handle_api_containers}
use wingstation.Server.Middleware.{World}
use wingstation.Server.Routes.{api_containers, registered, Mux, run_route, serve}
use wingstation.Server.Routes.Routed.{streaming, MayEnter, passed_on-write_json, serve-routed}
use wingstation.Server.Setup.{Server, with_templates, wired}
use wingstation.Server.Watch.{interval}
use wingstation.Main.{Platform, start, serves, site_of}
use wingstation.Main.Safe.{on_start}
use wingstation.Main.Run.{Action, IsAnswered, first_program, act}
use wingstation.Main.Run.Invariant.{IsRunning, start-IsRunning}

-- The answer to a search: the error, or what was found.
abbrev pub IsSearchReply : Site → (Str → Str) → Reply → Type 0
IsSearchReply s query reply =
    (reply ≡ replied (error_json s 500 (bytes "failed to list containers")))
    ⊎ ((cs : List Container) × IsFound s query cs
        × (reply ≡ replied (write_json s 200 (containers_json cs))))

module _ (s : Site) (cfg : Config) (i : Answers) (mux : Mux) (e : Bool) where
  -- The middleware leaves the answer as it is.
  serve-IsSearchReply :
      (r : Request) (w : World) (pattern : Str)
      → MayEnter cfg r
      → mux.choose (registered e) (streaming r) ≡ some (pattern, api_containers)
      → IsSearchReply s r.query (handle_api_containers s (streaming r) w.cache i).0
      → IsSearchReply s r.query (serve s cfg i mux e r w).0
  unfolding run_route
  serve-IsSearchReply r w pattern may chosen (inl failed) = inl (
      serve-routed s cfg i mux e r w (pattern, api_containers) _ may chosen failed
      ∙ ap replied (passed_on-write_json s r.flushes 500 _))
  serve-IsSearchReply r w pattern may chosen (inr (cs, found, replies)) = inr (
    cs,
    found,
    serve-routed s cfg i mux e r w (pattern, api_containers) _ may chosen replies
        ∙ ap replied (passed_on-write_json s r.flushes 200 _),
  )

module _ (p : Platform) where
  wired-IsSearchReply :
      (cfg : Config) (sets : List (Str × p.set) × p.set) (r : Request) (i : Answers) (pattern : Str)
      (w : World)
      → IsAnswer i.list.answer
      → MayEnter cfg r
      → p.mux.choose (registered cfg.terminal_enabled) (streaming r)
        ≡ some (pattern, api_containers)
      → Reachable p.base.unicode p.base.proto w.cache
      → let srv = wired p.base p.execute p.mux cfg cfg.terminal_enabled sets in
        IsSearchReply (site_of p srv) r.query (srv.http_server.handler i r w).0
  unfolding wired site_of with_templates
  wired-IsSearchReply cfg sets r i pattern w a may chosen reached =
      let s = site_of p (wired p.base p.execute p.mux cfg cfg.terminal_enabled sets) in
      serve-IsSearchReply s cfg i p.mux cfg.terminal_enabled r w pattern may chosen
        (handle_api_containers-IsFound s (streaming r) w.cache i reached a)

  -- After the start and any run of the program, a request that may enter and that the mux gives to
  -- `/api/containers` is answered, through all the middleware, with the error 500, or with 200 and
  -- a list of which no container is hidden, each fits the parameters `status`, `group`, `tag` and
  -- `q` of the request, by its fields, and may stand before those behind it in the order that the
  -- parameter `sort` asks for, if the refresh interval is positive and the ids of the daemon's
  -- answers, to the event goroutine and to this request, have at least twelve bytes.
  pub start-IsSearchReply :
      (cfg : Config) (srv : Server p.set) (c : Cache Cached) (actions : List Action) (r : Request)
      (i : Answers) (pattern : Str)
      → start p cfg ≡ serves srv c
      → ltb_ℤ (pos 0) (interval cfg.stats_interval_ms) ≡ true
      → All IsAnswered actions
      → IsAnswer i.list.answer
      → MayEnter cfg r
      → p.mux.choose (registered cfg.terminal_enabled) (streaming r)
        ≡ some (pattern, api_containers)
      → let world = (foldl (act p srv) (first_program p srv c) actions).world in
        IsSearchReply (site_of p srv) r.query (srv.http_server.handler i r world).0
  start-IsSearchReply cfg srv c actions r i pattern started positive n a may chosen =
      on_start p
        (λ t d.
          IsRunning p (foldl (act p t) (first_program p t d) actions)
          → IsSearchReply (site_of p t) r.query
              (t.http_server.handler i r (foldl (act p t) (first_program p t d) actions).world).0)
        cfg srv c started
        (λ sets h. wired-IsSearchReply cfg sets r i pattern _ a may chosen h.cache_reached)
        (start-IsRunning p cfg srv c actions started positive n)
