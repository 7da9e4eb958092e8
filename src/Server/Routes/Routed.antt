-- ===== src/Server/Routes/Routed.antt =====
-- The answer of the server to a request that reaches a route.
use wingstation.Prelude.{
  Str, Bool, true, false, List, some, ◌≡◌, refl, ◌∙◌, ap, ◌⊎◌, inl, inr, Option-cases, ℕ, filter,
}
use wingstation.Config.{Config}
use wingstation.Server.Http.{Request, Call, Reply, replied}
use wingstation.Server.Site.{Site, Payload, Answers}
use wingstation.Server.Api.{write_json}
use wingstation.Server.Middleware.{World, passed_on, logging, recovered, recovery}
use wingstation.Server.Routes.{Route, registered, Mux, run_route, serve_mux, serve}
use wingstation.Server.Routes.Auth.{IsAuthorized, inner, serve-IsAuthorized, serve-open}

-- The request as the routes see it: behind the log each writer is a Flusher.
abbrev pub streaming : Request → Request
streaming r = record r { flushes = true }

-- Authentication is off, or the request passes it.
abbrev pub MayEnter : Config → Request → Type 0
MayEnter cfg r = (cfg.auth_enabled ≡ false) ⊎ ((cfg.auth_enabled ≡ true) × IsAuthorized cfg r)

-- JSON is written without a flush.
pub passed_on-write_json :
    (s : Site) (flushes : Bool) (status : ℕ) (v : Payload)
    → passed_on flushes (write_json s status v) ≡ write_json s status v
unfolding passed_on write_json filter
passed_on-write_json s true status v = refl
passed_on-write_json s false status v = elim (Option-cases (s.encode v)) [
  | inl e ↦ rw e refl
  | inr (body, e) ↦ rw e refl
]

module _ (s : Site) (cfg : Config) (i : Answers) (mux : Mux) (exec_client : Bool) where
  serve_mux-routed :
      (r : Request) (w : World) (p : Str × Route)
      → mux.choose (registered exec_client) r ≡ some p
      → serve_mux s cfg i mux exec_client r w ≡ run_route s cfg i mux p.1 r w
  unfolding serve_mux
  serve_mux-routed r w p e = rw (e, serve_mux) refl

  inner-routed :
      (r : Request) (w : World) (p : Str × Route) (calls : List Call)
      → mux.choose (registered exec_client) (streaming r) ≡ some p
      → (run_route s cfg i mux p.1 (streaming r) w).0 ≡ replied calls
      → (inner s cfg i mux exec_client r w).0 ≡ replied (passed_on r.flushes calls)
  unfolding logging recovery
  inner-routed r w p calls chosen e =
      ap {B = Reply}
        (λ rep. let kept = recovered rep in record kept { calls = passed_on r.flushes kept.calls })
        (ap (λ x. x.0) (serve_mux-routed (streaming r) w p chosen) ∙ e)

  -- A request that may enter and for which the mux chooses a route gets the answer of the route's
  -- handler, without its flushes if the connection cannot be flushed.
  pub serve-routed :
      (r : Request) (w : World) (p : Str × Route) (calls : List Call)
      → MayEnter cfg r
      → mux.choose (registered exec_client) (streaming r) ≡ some p
      → (run_route s cfg i mux p.1 (streaming r) w).0 ≡ replied calls
      → (serve s cfg i mux exec_client r w).0 ≡ replied (passed_on r.flushes calls)
  serve-routed r w p calls (inl off) chosen e =
      ap (λ x. x.0) (serve-open s cfg i mux exec_client r w off) ∙ inner-routed r w p calls chosen e
  serve-routed r w p calls (inr (on, a)) chosen e =
      ap (λ x. x.0) (serve-IsAuthorized s cfg i mux exec_client r w on a)
      ∙ inner-routed r w p calls chosen e
