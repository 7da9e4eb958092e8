-- ===== src/Server/Routes/Tidy.antt =====
-- The replies of the routes, by the order of their calls.
use wingstation.Prelude.{
  Str, bytes, str_eq, Bool, true, false, List, [], ◌∷◌, Option, none, some, ◌≡◌, refl, ◌⊎◌, inl,
  inr, Bool-cases, ℕ,
}
use wingstation.Prelude.Int.{ℤ}
use wingstation.Config.{Config}
use wingstation.Go.Result.{Result, ok, err, panic}
use wingstation.Server.Http.{Request, hijacked, Reply, replied}
use wingstation.Server.Site.{Site, Answers}
use wingstation.Server.Stream.{Got, message, channel_closed, request_done, stream_calls, handle_sse}
use wingstation.Server.Terminal.{
  TerminalAnswers, refused, on_upgrade, on_attach, on_create, on_state, handle_terminal_ws,
}
use wingstation.Server.Terminal.Session.{ResizeMessage}
use wingstation.Server.Handlers.Tidy.{
  IsTidy, replied-IsTidy, NeverFails, handle_dashboard-IsTidy, handle_host-IsTidy,
  handle_partial_containers-IsTidy, handle_partial_container_card-IsTidy,
  handle_partial_detail-IsTidy, handle_api_containers-IsTidy, handle_api_container_detail-IsTidy,
  handle_api_host-IsTidy, handle_healthz-IsTidy,
}
use wingstation.Server.Middleware.{World}
use wingstation.Server.Middleware.Status.{is_quiet, is_orderly}
use wingstation.Server.Routes.{
  Route, static_files, dashboard, host_page, partial_containers, partial_container_card,
  partial_detail, api_containers, api_container_detail, api_host, event_stream, terminal_ws,
  healthz, Mux, run_route,
}

is_quiet-stream_calls : (gots : List Got) → is_quiet (stream_calls gots) ≡ true
unfolding is_quiet stream_calls
is_quiet-stream_calls [] = refl
is_quiet-stream_calls (message m ∷ gots) = is_quiet-stream_calls gots
is_quiet-stream_calls (channel_closed ∷ gots) = refl
is_quiet-stream_calls (request_done ∷ gots) = refl

handle_sse-IsTidy :
    (retry : ℤ) (r : Request) (gots : List Got)
    → IsTidy (handle_sse retry (record r { flushes = true }) gots)
unfolding handle_sse is_orderly is_quiet
handle_sse-IsTidy retry r gots = replied-IsTidy _ (is_quiet-stream_calls gots)

-- A tidy reply, or that of an upgrade.
abbrev pub MayUpgrade : Reply → Type 0
MayUpgrade rep = IsTidy rep ⊎ (rep ≡ replied (hijacked 101 ∷ []))

module _ (parse : Str → Option ResizeMessage) (t : TerminalAnswers)
    (h : is_orderly t.upgrade_calls ≡ true) where
  refused-IsTidy : (msg : Str) (code : ℕ) → MayUpgrade (refused msg code)
  unfolding is_orderly is_quiet
  refused-IsTidy msg code = inl (replied-IsTidy _ refl)

  on_upgrade-IsTidy : (b : Bool) → MayUpgrade (on_upgrade parse t b).0
  on_upgrade-IsTidy true = inr refl
  on_upgrade-IsTidy false = inl (replied-IsTidy _ h)

  on_attach-IsTidy : (exec_id : Str) (a : Option Str) → MayUpgrade (on_attach parse t exec_id a).0
  on_attach-IsTidy exec_id (some e) = refused-IsTidy _ 500
  on_attach-IsTidy exec_id none = on_upgrade-IsTidy t.upgraded

  on_create-IsTidy : (id : Str) (a : Result Str) → MayUpgrade (on_create parse t id a).0
  on_create-IsTidy id (err e) = refused-IsTidy _ 500
  on_create-IsTidy id panic = inl (inr refl)
  on_create-IsTidy id (ok exec_id) = on_attach-IsTidy exec_id t.attach

  on_state-IsTidy : (id : Str) (a : Result (Option Bool)) → MayUpgrade (on_state parse t id a).0
  on_state-IsTidy id (err e) = refused-IsTidy _ 404
  on_state-IsTidy id panic = inl (inr refl)
  on_state-IsTidy id (ok none) = inl (inr refl)
  on_state-IsTidy id (ok (some false)) = refused-IsTidy _ 400
  on_state-IsTidy id (ok (some true)) = on_create-IsTidy id t.exec_id

  handle_terminal_ws-IsTidy : (r : Request) → MayUpgrade (handle_terminal_ws parse t r).0
  unfolding handle_terminal_ws
  handle_terminal_ws-IsTidy r = elim (Bool-cases (str_eq (r.query (bytes "id")) [])) [
    | inl e ↦ rw (e, handle_terminal_ws) (refused-IsTidy _ 400)
    | inr e ↦ rw (e, handle_terminal_ws) (on_state-IsTidy (r.query (bytes "id")) t.state)
  ]

-- What the log needs of the templates, of the file server, of the mux and of an `Upgrade` that
-- fails: no status is set after one was sent, and none is sent past the wrapper.
pub record AreOrderly (s : Site) (i : Answers) (mux : Mux) : Type 0 where
  pub templates : NeverFails s
  pub files : (r : Request) → is_orderly (mux.serve_file r) ≡ true
  pub refusals : (r : Request) → is_orderly (mux.refuse r) ≡ true
  pub upgrade : is_orderly i.terminal.upgrade_calls ≡ true

module _ (s : Site) (cfg : Config) (i : Answers) (mux : Mux) where
  pub run_route-log :
      (route : Route) (r : Request) (w : World) → (run_route s cfg i mux route r w).1.log ≡ w.log
  unfolding run_route
  run_route-log static_files r w = refl
  run_route-log dashboard r w = refl
  run_route-log host_page r w = refl
  run_route-log partial_containers r w = refl
  run_route-log partial_container_card r w = refl
  run_route-log partial_detail r w = refl
  run_route-log api_containers r w = refl
  run_route-log api_container_detail r w = refl
  run_route-log api_host r w = refl
  run_route-log event_stream r w = refl
  run_route-log terminal_ws r w = refl
  run_route-log healthz r w = refl

  module _ (fine : AreOrderly s i mux) where
    pub run_route-IsTidy :
        (route : Route) (r : Request) (w : World)
        → MayUpgrade (run_route s cfg i mux route (record r { flushes = true }) w).0
    unfolding run_route
    run_route-IsTidy static_files r w = inl (replied-IsTidy _ (fine.files _))
    run_route-IsTidy dashboard r w = inl (handle_dashboard-IsTidy s _ w.cache i fine.templates)
    run_route-IsTidy host_page r w = inl (handle_host-IsTidy s _ w.cache i)
    run_route-IsTidy partial_containers r w =
        inl (handle_partial_containers-IsTidy s _ w.cache i fine.templates)
    run_route-IsTidy partial_container_card r w =
        inl (handle_partial_container_card-IsTidy s _ w.cache i fine.templates)
    run_route-IsTidy partial_detail r w =
        inl (handle_partial_detail-IsTidy s _ w.cache i fine.templates)
    run_route-IsTidy api_containers r w = inl (handle_api_containers-IsTidy s _ w.cache i)
    run_route-IsTidy api_container_detail r w =
        inl (handle_api_container_detail-IsTidy s _ w.cache i)
    run_route-IsTidy api_host r w = inl (handle_api_host-IsTidy s _ w.cache i)
    run_route-IsTidy event_stream r w = inl (handle_sse-IsTidy cfg.sse_retry_ms r i.streamed)
    run_route-IsTidy terminal_ws r w =
        handle_terminal_ws-IsTidy s.parse_resize i.terminal fine.upgrade _
    run_route-IsTidy healthz r w = inl (handle_healthz-IsTidy s _ w.cache i)
