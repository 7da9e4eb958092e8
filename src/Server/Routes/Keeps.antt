-- ===== src/Server/Routes/Keeps.antt =====
-- A property of the world that is kept by every route is kept by the server.
use wingstation.Prelude.{
  Str, bytes, str_eq, Bool, true, false, not, List, some, ◌≡◌, inl, inr, Option-cases,
  if◌then◌else◌,
}
use wingstation.Config.{Config}
use wingstation.Server.Http.{Request, Reply}
use wingstation.Server.Site.{Site, Answers}
use wingstation.Server.Middleware.{
  LogEntry, World, Handler, logging, recovery, has_credentials, basic_auth,
}
use wingstation.Server.Routes.{Route, registered, Mux, run_route, serve_mux, serve}

pub in_both :
    {A : Type 0} (P : A → Type 0) (b : Bool) (x y : A) → P x → P y → P (if b then x else y)
in_both P true x y p q = p
in_both P false x y p q = q

-- The property does not depend on the log.
module _ (P : World → Type 0)
    (log_free : (w : World) (l : List LogEntry) → P w → P (record w { log = l })) where
  logging-keeps :
      (h : Handler) (r : Request) (w : World)
      → P (h (record r { flushes = true }) w).1
      → P (logging h r w).1
  unfolding logging
  logging-keeps h r w p =
      let after = h (record r { flushes = true }) w in
      in_both P after.0.panicked _ _ p (log_free after.1 _ p)

  recovery-keeps : (h : Handler) (r : Request) (w : World) → P (h r w).1 → P (recovery h r w).1
  unfolding recovery
  recovery-keeps h r w p = p

  basic_auth-keeps :
      (cfg : Config) (h : Handler) (r : Request) (w : World)
      → P w
      → P (h r w).1
      → P (basic_auth cfg h r w).1
  unfolding basic_auth
  basic_auth-keeps cfg h r w start p =
      let Q = λ (x : Reply × World). P x.1 in
      in_both Q (str_eq r.path (bytes "/healthz")) _ _ p
        (in_both Q (not (has_credentials cfg r)) _ _ start p)

  module _ (s : Site) (cfg : Config) (i : Answers) (mux : Mux) (exec_client : Bool) where
    serve_mux-keeps :
        (r : Request) (w : World)
        → P w
        → ((p : Str × Route)
            → mux.choose (registered exec_client) r ≡ some p
            → P (run_route s cfg i mux p.1 r w).1)
        → P (serve_mux s cfg i mux exec_client r w).1
    unfolding serve_mux
    serve_mux-keeps r w start routes = elim (Option-cases (mux.choose (registered exec_client) r)) [
      | inl e ↦ rw (e, serve_mux) start
      | inr (p, e) ↦ rw (e, serve_mux) (routes p e)
    ]

    pub serve-keeps :
        (r : Request) (w : World)
        → P w
        → ((q : Request) (p : Str × Route)
            → mux.choose (registered exec_client) q ≡ some p
            → P (run_route s cfg i mux p.1 q w).1)
        → P (serve s cfg i mux exec_client r w).1
    unfolding serve
    serve-keeps r w start routes =
        let streaming = record r { flushes = true } in
        let routed = serve_mux s cfg i mux exec_client in
        let inner = logging (recovery routed) in
        let kept : P (inner r w).1 = logging-keeps (recovery routed) r w (
          recovery-keeps routed streaming w
            (serve_mux-keeps streaming w start (routes streaming))) in
        in_both (λ (h : Handler). P (h r w).1) cfg.auth_enabled (basic_auth cfg inner) inner
          (basic_auth-keeps cfg inner r w start kept) kept
