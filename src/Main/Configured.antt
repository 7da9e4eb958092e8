-- ===== src/Main/Configured.antt =====
-- The program (cmd/wingstation/main.go) as its environment configures it.
use mathlib.Core.List.{foldl}
use wingstation.Prelude.{
  Str, bytes, str_eq, true, false, ◌≢◌, List, [], ◌∷◌, ◌++◌, Option, ◌≡◌, ◌∙◌, any,
}
use wingstation.Prelude.Int.{ℤ}
use wingstation.Go.Strconv.{itoa_ℤ}
use wingstation.Go.Strconv.RoundTrip.{in_range}
use wingstation.Cache.{Cache}
use wingstation.Config.{load}
use wingstation.Config.Laws.{true_spellings, load-parse_bool, addr-load}
use wingstation.Service.Listing.{Cached}
use wingstation.Server.Setup.{Server, start_server, wired}
use wingstation.Main.{Platform, start, serves}
use wingstation.Main.Safe.{on_start}
use wingstation.Main.Run.{Action, first_program, act}
use wingstation.Main.Run.ReadOnly.{start-read_only}

module _ (p : Platform) (getenv : Str → Str) (parse_duration : Str → Option ℤ) where
  -- Unless WINGSTATION_TERMINAL_ENABLED is one of the six spellings of true that
  -- `strconv.ParseBool` takes, the program stays read-only: whatever is requested of it, by
  -- whomever, whatever the daemon answers and whatever else happens, it never asks for an exec.
  pub load-read_only :
      (srv : Server p.set) (c : Cache Cached) (actions : List Action)
      → start p (load getenv parse_duration) ≡ serves srv c
      → any (str_eq (getenv (bytes "WINGSTATION_TERMINAL_ENABLED"))) true_spellings ≡ false
      → (foldl (act p srv) (first_program p srv c) actions).world.execs ≡ []
  load-read_only srv c actions started off =
      start-read_only p (load getenv parse_duration) srv c actions started
        ((load-parse_bool getenv parse_duration).1 ∙ off)

  -- Where WINGSTATION_HOST is set, and WINGSTATION_PORT is the decimal text of a number of 64 bits,
  -- a program that has started listens on the one text, a colon, and the other.
  pub load-listens :
      (srv : Server p.set) (c : Cache Cached) (z : ℤ)
      → start p (load getenv parse_duration) ≡ serves srv c
      → getenv (bytes "WINGSTATION_HOST") ≢ []
      → getenv (bytes "WINGSTATION_PORT") ≡ itoa_ℤ z
      → in_range z ≡ true
      → (start_server srv).1
        ≡ getenv (bytes "WINGSTATION_HOST") ++ b':' ∷ getenv (bytes "WINGSTATION_PORT")
  unfolding start_server wired
  load-listens srv c z started n e h =
      on_start p
        (λ t d.
          (start_server t).1
          ≡ getenv (bytes "WINGSTATION_HOST") ++ b':' ∷ getenv (bytes "WINGSTATION_PORT"))
        (load getenv parse_duration) srv c started (λ sets. addr-load getenv parse_duration z n e h)
