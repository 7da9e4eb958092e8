-- ===== src/Main/End.antt =====
-- cmd/wingstation/main.go: the wait for a signal, the end of the server, and the shutdown with the
-- deferred calls. What the deferred `Close` of the Docker client does is left out.
pub mod Exit
use wingstation.Prelude.{
  Str, Bool, true, false, List, [], ◌∷◌, Option, none, some, if◌then◌else◌, ℕ,
}
use wingstation.Go.Result.{Result, ok, err, panic}
use wingstation.Cache.{Cache, stop}
use wingstation.Service.Listing.{Cached}
use wingstation.Server.Setup.{Server, shut_down_server}
use wingstation.Server.Watch.{
  Phase, connecting, selecting, refreshing, awaiting, sending, updating, returned, dead,
}
use wingstation.Config.{load}
use wingstation.Prelude.Int.{ℤ}
use wingstation.Main.{Platform, Level, log_level, Start, exits, serves, start}
use wingstation.Main.Run.{Program, Action, first_program, act}

-- What `Start` of the server returns: `http.ErrServerClosed`, or another error.
pub data ServeError : Type 0 where
  server_closed : ServeError
  other_error : Str → ServeError

-- What the program meets once it serves.
pub data Happening : Type 0 where
  acts : Action → Happening
  server_returns : Option ServeError → Happening
  signalled : Happening

pub data Outcome : Type 0 where
  running : Program → Outcome
  ended : ℕ → Outcome

-- The code that the goroutine of the server exits with, if it exits.
unfoldable pub serve_exit : Option ServeError → Option ℕ
serve_exit none = none
serve_exit (some server_closed) = none
serve_exit (some (other_error e)) = some 1

-- A panic of the event goroutine ends the process.
unfoldable pub has_died : Option Phase → Bool
has_died (some dead) = true
has_died (some connecting) = false
has_died (some selecting) = false
has_died (some (refreshing o)) = false
has_died (some (awaiting o)) = false
has_died (some (sending groups o)) = false
has_died (some (updating m)) = false
has_died (some returned) = false
has_died none = false

-- The deferred `Stop` of the cache, and the end of `main`: a panic exits with 2.
unfoldable pub stop_cache : Cache Cached → ℕ
stop_cache c = elim (stop c) [ none ↦ 2 | some d ↦ 0 ]

-- The error of `Shutdown` is only logged; after a panic the deferred calls run all the same.
abbrev pub after_shutdown : {A : Type 0} → Cache Cached → Result A → ℕ
after_shutdown c (ok r) = stop_cache c
after_shutdown c (err e) = stop_cache c
after_shutdown c panic = 2

module _ (p : Platform) (srv : Server p.set) where
  -- From the signal on.
  unfoldable pub shut_down : Program → ℕ
  unfolding shut_down_server stop_cache
  shut_down g =
      after_shutdown g.world.cache (shut_down_server p.close_http (record srv { sse = g.broker }))

  -- `main`, from its wait on.
  unfoldable pub run_main : Program → List Happening → Outcome
  unfolding act shut_down serve_exit has_died
  run_main g [] = running g
  run_main g (acts a ∷ hs) =
      let next = act p srv g a in
      let rest = run_main next hs in if has_died next.goroutine then ended 2 else rest
  run_main g (server_returns e ∷ hs) =
      let rest = run_main g hs in elim (serve_exit e) [ none ↦ rest | some code ↦ ended code ]
  run_main g (signalled ∷ hs) = ended (shut_down g)

module _ (p : Platform) where
  -- What follows the start.
  abbrev pub after_start : Start p → List Happening → Outcome
  after_start (exits code) hs = ended code
  after_start (serves srv c) hs = run_main p srv (first_program p srv c) hs

  -- `main`, in an environment: the level of its log, and how it ends.
  unfoldable pub main : (Str → Str) → (Str → Option ℤ) → List Happening → Level × Outcome
  unfolding load log_level start
  main getenv parse_duration hs =
      let cfg = load getenv parse_duration in
      (log_level cfg.log_level, after_start (start p cfg) hs)
