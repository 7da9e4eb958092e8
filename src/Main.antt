-- ===== src/Main.antt =====
-- cmd/wingstation/main.go: the start of the program.
pub mod Safe
pub mod Configured
pub mod Run
pub mod End
use mathlib.Core.List.{foldl}
use wingstation.Prelude.{
  Str, bytes, str_eq, Bool, true, false, List, [], ◌∷◌, Option, none, some, if◌then◌else◌, ℕ,
}
use wingstation.Go.Result.{Result, ok, err, panic, and_then}
use wingstation.Cache.{Cache, new}
use wingstation.Config.{Config}
use wingstation.Docker.Client.{Sdk, new_read_only_client, new_exec_client}
use wingstation.Service.Listing.{Cached}
use wingstation.Server.Http.{Request}
use wingstation.Server.Site.{Site, Answers}
use wingstation.Server.Middleware.{World}
use wingstation.Server.Routes.{Mux}
use wingstation.Server.Helpers.{Floats}
use wingstation.Server.Templates.{Files, Engine}
use wingstation.Server.Setup.{Server, Execute, new_server, with_templates}

-- The levels of package slog.
pub data Level : Type 0 where
  level_debug : Level
  level_info : Level
  level_warn : Level
  level_error : Level

unfoldable pub log_level : Str → Level
log_level name =
    if str_eq name (bytes "debug")
    then level_debug
    else if str_eq name (bytes "warn")
    then level_warn
    else if str_eq name (bytes "error")
    then level_error
    else level_info

-- What the program stands on: the Docker SDK, the embedded files, html/template with its sets, the
-- mux, and what else the handlers use. `close_http` is `http.Server.Shutdown`, by its error.
pub record Platform : Type 1 where
  pub client : Type 0
  pub sdk : Sdk client
  pub files : Files
  pub set : Type 0
  pub floats : Floats
  pub engine : Engine floats.float set
  pub execute : Execute set
  pub base : Site
  pub mux : Mux
  pub close_http : Server set → Option Str

module _ (p : Platform) where
  -- The program exits with a code, or serves.
  pub data Start : Type 0 where
    exits : ℕ → Start
    serves : Server p.set → Cache Cached → Start

  -- `log.Error` and `os.Exit(1)`, or on. A panic exits with 2.
  abbrev pub or_exit : {A : Type 0} → Result A → (A → Start) → Start
  or_exit (ok a) next = next a
  or_exit (err e) next = exits 1
  or_exit panic next = exits 2

  -- Whether there is an exec client; `execClient` stays nil where the terminal is disabled.
  abbrev pub exec_made : Config → Result Bool
  exec_made cfg =
      if cfg.terminal_enabled
      then and_then (new_exec_client p.sdk cfg.docker_socket) (λ c. ok true) err
      else ok false

  -- `main`, up to the wait for a signal.
  unfoldable pub start : Config → Start
  unfolding new_server
  start cfg = or_exit (new_read_only_client p.sdk cfg.docker_socket) (λ client.
      or_exit (p.sdk.ping client) (λ version. or_exit (exec_made cfg) (λ exec_client.
        or_exit (new_server p.base p.execute p.mux p.files p.floats p.engine cfg exec_client)
          (λ srv. serves srv (new cfg.cache_ttl)))))

  -- What the server's handlers render.
  unfoldable pub site_of : Server p.set → Site
  unfolding with_templates
  site_of srv = with_templates p.base p.execute srv.pages srv.partials

-- What the requests share at the start.
abbrev pub first_world : Cache Cached → World
first_world c = record { cache = c; log = []; execs = [] }
