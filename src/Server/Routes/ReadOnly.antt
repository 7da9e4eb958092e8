-- ===== src/Server/Routes/ReadOnly.antt =====
-- What the exec client is asked by a request.
use wingstation.Prelude.{Str, Bool, true, false, ◌≡◌, refl, All}
use wingstation.Prelude.Perm.{All-mem, Bool-set}
use wingstation.Config.{Config}
use wingstation.Server.Http.{Request}
use wingstation.Server.Site.{Site, Answers}
use wingstation.Server.Middleware.{World}
use wingstation.Server.Routes.{
  Route, static_files, dashboard, host_page, partial_containers, partial_container_card,
  partial_detail, api_containers, api_container_detail, api_host, event_stream, terminal_ws,
  healthz, registered, Mux, run_route, serve,
}
use wingstation.Server.Routes.Keeps.{serve-keeps}

abbrev is_terminal : Route → Bool
is_terminal terminal_ws = true
is_terminal _ = false

registered_quiet : All (λ (p : Str × Route). is_terminal p.1 ≡ false) (registered false)
unfolding registered
registered_quiet =
    (refl, (refl, (refl, (refl, (refl, (refl, (refl, (refl, (refl, (refl, (refl, tt)))))))))))

module _ (s : Site) (cfg : Config) (i : Answers) (mux : Mux) (r : Request) (w : World) where
  run_route-execs :
      (route : Route)
      → is_terminal route ≡ false
      → (run_route s cfg i mux route r w).1.execs ≡ w.execs
  unfolding run_route
  run_route-execs static_files q = refl
  run_route-execs dashboard q = refl
  run_route-execs host_page q = refl
  run_route-execs partial_containers q = refl
  run_route-execs partial_container_card q = refl
  run_route-execs partial_detail q = refl
  run_route-execs api_containers q = refl
  run_route-execs api_container_detail q = refl
  run_route-execs api_host q = refl
  run_route-execs event_stream q = refl
  run_route-execs terminal_ws q = cc
  run_route-execs healthz q = refl

-- A server without an exec client asks nothing of one, whatever the request, the credentials and
-- the choice of the mux: it stays read-only.
pub serve-execs :
    (s : Site) (cfg : Config) (i : Answers) (mux : Mux) (r : Request) (w : World)
    → (serve s cfg i mux false r w).1.execs ≡ w.execs
serve-execs s cfg i mux r w =
    serve-keeps (λ v. v.execs ≡ w.execs) (λ v l h. h) s cfg i mux false r w refl
      (λ q p e. run_route-execs s cfg i mux q w p.1 (
        All-mem (λ p. is_terminal p.1 ≡ false) (λ p. Bool-set _ _) (registered false) p
          registered_quiet (mux.choose_registered (registered false) q p e)))
