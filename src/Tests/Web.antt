-- ===== src/Tests/Web.antt =====
-- A site, a mux and requests for the tests.
use mathlib.Core.List.{Mem, mem-cons_self, mem-cons_of_mem}
use mathlib.Core.Option.{some-injective, none-ne-some}
use wingstation.Prelude.{
  Str, bytes, str_eq, Bool, true, false, List, [], ◌∷◌, ◌++◌, Option, none, some, ◌≡◌, subst, inl,
  inr, Bool-cases, if◌then◌else◌,
}
use wingstation.Prelude.Int.{pos}
use wingstation.Go.Result.{ok, err}
use wingstation.Go.Runtime.Insertion.{forward}
use wingstation.Cache.{new}
use wingstation.Config.{Config}
use wingstation.Server.Events.{event_text}
use wingstation.Server.Http.{Request, http_error}
use wingstation.Server.Site.{Site, Answers}
use wingstation.Server.Stream.{message, request_done}
use wingstation.Server.Terminal.{TerminalAnswers}
use wingstation.Server.Terminal.Session.{exec_read, ws_text, ws_failed}
use wingstation.Server.Middleware.{World}
use wingstation.Server.Routes.{Route, Mux}
use wingstation.Tests.Data.{plain}
use wingstation.Tests.Listing.{first_input, host_input, protocol}

-- Every page shows its error, and every partial its name.
abbrev pub site : Site
site = record {
  runtime = forward;
  unicode = plain;
  proto = protocol;
  pages = λ name. some (λ d. (bytes "<html>" ∷ d.error ∷ [], true));
  partials = λ name d. (name ∷ [], true);
  encode = λ v. some (bytes "{}");
  parse_resize = λ msg. some (record { kind = msg; cols = 80; rows = 24 });
}

-- A mux that knows no wildcards.
unfoldable pub find : List (Str × Route) → Request → Option (Str × Route)
find [] r = none
find (p ∷ ps) r = if str_eq p.0 (r.method ++ b' ' ∷ r.path) then some p else find ps r

pub find-registered :
    (ps : List (Str × Route)) (r : Request) (p : Str × Route) → find ps r ≡ some p → Mem p ps
unfolding find
find-registered [] r p h = absurd (none-ne-some p h)
find-registered (q ∷ ps) r p h = elim (Bool-cases (str_eq q.0 (r.method ++ b' ' ∷ r.path))) [
  | inl e ↦ subst (λ x. Mem x (q ∷ ps)) (some-injective q p (rw e at h)) mem-cons_self
  | inr e ↦ mem-cons_of_mem q (find-registered ps r p (rw e at h))
]

abbrev pub exact_mux : Mux
exact_mux = record {
  choose = find;
  choose_registered = find-registered;
  refuse = λ r. http_error (bytes "404 page not found") 404 ∷ [];
  serve_file = λ r. http_error (bytes "404 page not found") 404 ∷ [];
}

abbrev pub configured : Bool → Bool → Config
configured auth terminal = record {
  port = pos 8080;
  host = bytes "0.0.0.0";
  base_url = [];
  docker_socket = bytes "/var/run/docker.sock";
  auth_enabled = auth;
  auth_user = bytes "admin";
  auth_pass = bytes "pw";
  cache_ttl = pos 100;
  sse_enabled = true;
  sse_retry_ms = pos 3000;
  stats_interval_ms = pos 5000;
  terminal_enabled = terminal;
  log_level = bytes "info";
}

-- A running container whose shell answers once; then the browser leaves.
abbrev pub terminal_answers : TerminalAnswers
terminal_answers = record {
  state = ok (some true);
  exec_id = ok (bytes "e1");
  attach = none;
  upgrade_calls = http_error (bytes "Bad Request") 400 ∷ [];
  upgraded = true;
  events = ws_text (bytes "ls") true ∷ exec_read (bytes "web") true false ∷ ws_failed ∷ [];
}

abbrev pub answers : Answers
answers = record {
  list = first_input;
  inspection = record { asked = pos 2; answer = err (bytes "no such container"); stored = pos 3 };
  host = host_input;
  ping = ok (bytes "1.47");
  streamed = message (event_text (bytes "up") (bytes "now")) ∷ request_done ∷ [];
  terminal = terminal_answers;
}

-- A request by path, with one value for every parameter of the query.
abbrev pub get_request : Str → Str → Option (Str × Str) → Request
get_request path value auth = record {
  method = bytes "GET";
  path = path;
  query = λ key. value;
  path_id = [];
  basic_auth = auth;
  flushes = true;
}

abbrev pub fresh_world : World
fresh_world = record { cache = new (pos 100); log = []; execs = [] }
