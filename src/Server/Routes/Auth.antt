-- ===== src/Server/Routes/Auth.antt =====
-- Who is served when `AuthEnabled` is set.
use wingstation.Prelude.{
  bytes, str_eq, str_eq_iff, str_eq_refl, Bool, true, false, some, ◌≡◌, refl, ◌∙◌, ap, ◌⊎◌, inl,
  inr, Option-cases, and-true, not-true, if◌then◌else◌,
}
use wingstation.Config.{Config}
use wingstation.Server.Http.{Request, replied}
use wingstation.Server.Site.{Site, Answers}
use wingstation.Server.Middleware.{
  World, Handler, logging, recovery, has_credentials, unauthorized, basic_auth,
}
use wingstation.Server.Routes.{Mux, serve_mux, serve}

-- The health endpoint, or the configured user and password.
abbrev pub IsAuthorized : Config → Request → Type 0
IsAuthorized cfg r =
    (r.path ≡ bytes "/healthz") ⊎ (r.basic_auth ≡ some (cfg.auth_user, cfg.auth_pass))

has_credentials_sound :
    (cfg : Config) (r : Request)
    → has_credentials cfg r ≡ true
    → r.basic_auth ≡ some (cfg.auth_user, cfg.auth_pass)
unfolding has_credentials
has_credentials_sound cfg r h = elim (Option-cases r.basic_auth) [
  | inl e ↦ cc (rw e at h)
  | inr ((user, pass), e) ↦
      let (p, q) = and-true (str_eq user cfg.auth_user) (str_eq pass cfg.auth_pass) (rw e at h) in
      e ∙ (λ i. some ((str_eq_iff user cfg.auth_user).0 p i, (str_eq_iff pass cfg.auth_pass).0 q i))
]

has_credentials_complete :
    (cfg : Config) (r : Request)
    → r.basic_auth ≡ some (cfg.auth_user, cfg.auth_pass)
    → has_credentials cfg r ≡ true
unfolding has_credentials
has_credentials_complete cfg r e = rw (e, str_eq_refl cfg.auth_user, str_eq_refl cfg.auth_pass) refl

basic_auth-unauthorized :
    (cfg : Config) (next : Handler) (r : Request) (w : World)
    → ¬ IsAuthorized cfg r
    → basic_auth cfg next r w ≡ (replied unauthorized, w)
unfolding basic_auth
basic_auth-unauthorized cfg next r w n =
    let elsewhere =
      not-true (str_eq r.path (bytes "/healthz")) (λ h. n (inl ((str_eq_iff _ _).0 h))) in
    let unknown = not-true (has_credentials cfg r) (λ h. n (inr (has_credentials_sound cfg r h))) in
    rw (elsewhere, unknown) refl

basic_auth-IsAuthorized :
    (cfg : Config) (next : Handler) (r : Request) (w : World)
    → IsAuthorized cfg r
    → basic_auth cfg next r w ≡ next r w
unfolding basic_auth
basic_auth-IsAuthorized cfg next r w (inl h) = rw ((str_eq_iff r.path (bytes "/healthz")).1 h) refl
basic_auth-IsAuthorized cfg next r w (inr c) =
    rw (has_credentials_complete cfg r c) (if_same (str_eq r.path (bytes "/healthz")) (next r w))
  where
    if_same : {A : Type 0} (b : Bool) (a : A) → (if b then a else a) ≡ a
    if_same true a = refl
    if_same false a = refl

module _ (s : Site) (cfg : Config) (i : Answers) (mux : Mux) (exec_client : Bool) where
  -- The handlers behind the log.
  abbrev pub inner : Handler
  inner = logging (recovery (serve_mux s cfg i mux exec_client))

  with_auth :
      (r : Request) (w : World)
      → cfg.auth_enabled ≡ true
      → serve s cfg i mux exec_client r w ≡ basic_auth cfg inner r w
  unfolding serve
  with_auth r w on = ap (λ b. (if b then basic_auth cfg inner else inner) r w) on

  -- Where authentication is on, a request that is neither for the health endpoint nor carries the
  -- configured user and password gets the 401 reply with its challenge, whatever its route: no
  -- handler runs, so that the cache, the log and the exec client stay as they are.
  pub serve-unauthorized :
      (r : Request) (w : World)
      → cfg.auth_enabled ≡ true
      → ¬ IsAuthorized cfg r
      → serve s cfg i mux exec_client r w ≡ (replied unauthorized, w)
  serve-unauthorized r w on n = with_auth r w on ∙ basic_auth-unauthorized cfg inner r w n

  -- Where authentication is on, a request that is for the health endpoint or carries the
  -- configured user and password is served by the routes, behind the log and the recovery.
  pub serve-IsAuthorized :
      (r : Request) (w : World)
      → cfg.auth_enabled ≡ true
      → IsAuthorized cfg r
      → serve s cfg i mux exec_client r w ≡ inner r w
  serve-IsAuthorized r w on a = with_auth r w on ∙ basic_auth-IsAuthorized cfg inner r w a

  -- Where authentication is off, every request is.
  pub serve-open :
      (r : Request) (w : World)
      → cfg.auth_enabled ≡ false
      → serve s cfg i mux exec_client r w ≡ inner r w
  unfolding serve
  serve-open r w off = ap (λ b. (if b then basic_auth cfg inner else inner) r w) off
