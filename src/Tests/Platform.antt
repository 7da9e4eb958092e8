-- ===== src/Tests/Platform.antt =====
-- What a program stands on, for the tests.
use wingstation.Prelude.{
  Str, bytes, str_eq, true, Bool, List, [], ◌∷◌, ◌++◌, Option, none, some, if◌then◌else◌,
}
use wingstation.Prelude.Int.{ℤ}
use wingstation.Go.Result.{ok}
use wingstation.Config.{Config}
use wingstation.Server.Templates.{Files, Engine}
use wingstation.Server.Setup.{Server, wired}
use wingstation.Main.{Platform}
use wingstation.Tests.Loops.{whole_floats}
use wingstation.Tests.Web.{site, exact_mux}

-- Two pages and no partials.
abbrev pub page_files : List Str
page_files = bytes "templates/pages/dashboard.html" ∷ bytes "templates/pages/host.html" ∷ []

abbrev pub files : Files
files = record {
  glob = λ pattern. ok (if str_eq pattern (bytes "templates/pages/*.html") then page_files else []);
  read = λ name. ok name;
}

-- A set of templates is the list of its files.
abbrev pub listing : Engine ℤ (List Str)
listing = record { fresh = λ fm name. []; parse = λ t file text. ok (t ++ file ∷ []) }

-- The shutdown of the HTTP server fails.
abbrev pub platform : Platform
platform = record {
  client = Unit;
  sdk = record { new_client_with_opts = λ o. ok tt; ping = λ c. ok (bytes "1.47") };
  files = files;
  set = List Str;
  floats = whole_floats;
  engine = listing;
  execute = λ t name d. (name ∷ [], true);
  base = site;
  mux = exact_mux;
  close_http = λ s. some (bytes "context deadline exceeded");
}

abbrev page_set_of : Str → List Str
page_set_of file = bytes "templates/layouts/base.html" ∷ file ∷ []

-- The server that `New` makes of it.
abbrev pub server : Config → Bool → Server (List Str)
server cfg exec_client = wired site platform.execute exact_mux cfg exec_client (
  (bytes "dashboard", page_set_of (bytes "templates/pages/dashboard.html"))
      ∷ (bytes "host", page_set_of (bytes "templates/pages/host.html"))
      ∷ [],
  [],
)

-- An environment.
abbrev pub getenv : Str → Str
getenv key =
    if str_eq key (bytes "WINGSTATION_PORT")
    then bytes "9090"
    else if str_eq key (bytes "WINGSTATION_HOST")
    then bytes "127.0.0.1"
    else if str_eq key (bytes "WINGSTATION_TERMINAL_ENABLED")
    then bytes "yes"
    else []

abbrev pub no_duration : Str → Option ℤ
no_duration v = none
