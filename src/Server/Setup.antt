-- ===== src/Server/Setup.antt =====
-- internal/server/server.go: `Server`, and its `New`, `Start` and `Shutdown`. The templates'
-- engine and the HTTP server are parameters.
pub mod Pages
use wingstation.Prelude.{Str, bytes, Bool, List, ◌++◌, Option, none, some, if◌then◌else◌}
use wingstation.Prelude.Int.{ℤ, pos}
use wingstation.Go.Map.{lookup}
use wingstation.Go.Result.{Result, ok, err, and_then}
use wingstation.Config.{Config, addr}
use wingstation.Server.Site.{Site, Answers, PartialData, page_data}
use wingstation.Server.Broker.{Broker, new_broker, stop_broker}
use wingstation.Server.Middleware.{Handler}
use wingstation.Server.Routes.{Mux, serve}
use wingstation.Server.Helpers.{Floats}
use wingstation.Server.Templates.{Files, Engine, layout_file, parse_templates}
use wingstation.Server.Watch.{Phase, connecting}

-- The fields of `http.Server` that are set; its times are in nanoseconds.
pub record HttpServer : Type 0 where
  pub addr : Str
  pub handler : Answers → Handler
  pub read_timeout : ℤ
  pub write_timeout : ℤ
  pub idle_timeout : ℤ

-- `Server`, without the services and the clients: `exec_client` says whether there is one.
pub record Server (T : Type 0) : Type 0 where
  pub cfg : Config
  pub exec_client : Bool
  pub pages : List (Str × T)
  pub partials : T
  pub http_server : HttpServer
  pub sse : Broker

-- `ExecuteTemplate` of a set, by the name of the template.
abbrev pub Execute : Type 0 → Type 0
Execute T = T → Str → PartialData → List Str × Bool

module _ {T : Type 0} where
  -- What the handlers render, from the sets of the templates.
  unfoldable pub with_templates : Site → Execute T → List (Str × T) → T → Site
  with_templates base execute pages partials = record base {
    pages = λ name. elim (lookup name pages) [
      | none ↦ none
      | some t ↦ some (λ d. execute t layout_file (page_data d))
    ];
    partials = execute partials;
  }

  module _ (base : Site) (execute : Execute T) (mux : Mux) where
    -- The server with its templates.
    unfoldable pub wired : Config → Bool → List (Str × T) × T → Server T
    unfolding with_templates serve
    wired cfg exec_client (pages, partials) = record {
      cfg = cfg;
      exec_client = exec_client;
      pages = pages;
      partials = partials;
      http_server = record {
        addr = addr cfg;
        handler = λ i. serve (with_templates base execute pages partials) cfg i mux exec_client;
        read_timeout = pos 15_000_000_000;
        write_timeout = pos 30_000_000_000;
        idle_timeout = pos 60_000_000_000;
      };
      sse = new_broker;
    }

    -- `New`
    unfoldable pub new_server :
        Files → (f : Floats) → Engine f.float T → Config → Bool → Result (Server T)
    unfolding parse_templates wired
    new_server files f eng cfg exec_client =
        and_then (parse_templates files base.unicode f eng base.runtime cfg.terminal_enabled)
          (λ t. ok (wired cfg exec_client t)) (λ e. err (bytes "parsing templates: " ++ e))

  -- `Start`: the goroutine that it starts, if it does, and the address that it listens on. The
  -- broker's `Start` does nothing.
  unfoldable pub start_server : Server T → Option Phase × Str
  start_server s = (if s.cfg.sse_enabled then some connecting else none, s.http_server.addr)

  -- `Shutdown`: the broker is stopped, then the HTTP server, with the error that it gives.
  unfoldable pub shut_down_server :
      (Server T → Option Str) → Server T → Result (Server T × Option Str)
  unfolding stop_broker
  shut_down_server close_http s =
      and_then (stop_broker s.sse)
        (λ b. let stopped = record s { sse = b } in ok (stopped, close_http stopped)) err
