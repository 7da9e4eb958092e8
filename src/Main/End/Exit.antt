-- ===== src/Main/End/Exit.antt =====
-- The exit code of the program (cmd/wingstation/main.go).
use wingstation.Prelude.{
  Str, Bool, true, false, List, [], ◌∷◌, Option, none, some, ◌≡◌, ◌≢◌, refl, ap, ◌∙◌, All,
  if◌then◌else◌, ℕ, ◌⊎◌, inl, inr, arith,
}
use wingstation.Prelude.Int.{ℤ, pos, ltb_ℤ}
use wingstation.Go.Result.{Result, ok, err, panic, and_then}
use wingstation.Cache.{Cache, new, stop}
use wingstation.Config.{Config, load}
use wingstation.Docker.Client.{new_read_only_client}
use wingstation.Service.Listing.{Cached}
use wingstation.Service.Listing.Stopped.{Reachable-stopped}
use wingstation.Server.Broker.{Broker}
use wingstation.Server.Broker.Reach.{stop_broker_correct}
use wingstation.Server.Setup.{Server, new_server, wired, shut_down_server}
use wingstation.Server.Watch.{
  Phase, connecting, selecting, refreshing, awaiting, sending, updating, returned, dead, interval,
}
use wingstation.Main.{Platform, Start, exits, start, serves, or_exit, exec_made}
use wingstation.Main.Safe.{on_start}
use wingstation.Main.Run.{Program, IsAnswered, first_program, act}
use wingstation.Main.Run.Invariant.{IsRunning, act-IsRunning, first-IsRunning}
use wingstation.Main.End.{
  server_closed, other_error, Happening, acts, server_returns, signalled, Outcome, running, ended,
  serve_exit, has_died, stop_cache, after_shutdown, shut_down, run_main, after_start, main,
}

abbrev pub exit_status : Outcome → Option ℕ
exit_status (running g) = none
exit_status (ended code) = some code

-- The first happening that ends the program: a signal with 0, an error of the server, other than
-- that of its shutdown, with 1.
unfoldable pub first_end : List Happening → Option ℕ
first_end [] = none
first_end (acts a ∷ hs) = first_end hs
first_end (server_returns none ∷ hs) = first_end hs
first_end (server_returns (some server_closed) ∷ hs) = first_end hs
first_end (server_returns (some (other_error e)) ∷ hs) = some 1
first_end (signalled ∷ hs) = some 0

abbrev pub IsHarmless : Happening → Type 0
IsHarmless (acts a) = IsAnswered a
IsHarmless (server_returns e) = Unit
IsHarmless signalled = Unit

has_died-alive : (o : Option Phase) → o ≢ some dead → has_died o ≡ false
unfolding has_died
has_died-alive none n = refl
has_died-alive (some connecting) n = refl
has_died-alive (some selecting) n = refl
has_died-alive (some (refreshing o)) n = refl
has_died-alive (some (awaiting o)) n = refl
has_died-alive (some (sending groups o)) n = refl
has_died-alive (some (updating m)) n = refl
has_died-alive (some returned) n = refl
has_died-alive (some dead) n = absurd (n refl)

stop_cache-running : (c : Cache Cached) → c.stopped ≡ false → stop_cache c ≡ 0
unfolding stop_cache stop
stop_cache-running c h = rw h refl

module _ (p : Platform) where
  -- A signal to a running program: nothing panics.
  shut_down-running : (srv : Server p.set) (g : Program) → IsRunning p g → shut_down p srv g ≡ 0
  unfolding shut_down shut_down_server
  shut_down-running srv g h =
      let (b, e, _, _) = stop_broker_correct g.broker h.broker_reached h.broker_runs in
      ap (λ r. after_shutdown g.world.cache (and_then r closes err)) e
      ∙ stop_cache-running g.world.cache
          (Reachable-stopped p.base.unicode p.base.proto h.cache_reached)
    where
      closes : Broker → Result (Server p.set × Option Str)
      closes b = let stopped = record srv { sse = b } in ok (stopped, p.close_http stopped)

  module _ (cfg : Config) (e : Bool) (sets : List (Str × p.set) × p.set)
      (positive : ltb_ℤ (pos 0) (interval cfg.stats_interval_ms) ≡ true) where
    abbrev wired_server : Server p.set
    wired_server = wired p.base p.execute p.mux cfg e sets

    runs_main :
        (g : Program) (hs : List Happening)
        → All IsHarmless hs
        → IsRunning p g
        → exit_status (run_main p wired_server g hs) ≡ first_end hs
    unfolding run_main first_end serve_exit
    runs_main g [] n h = refl
    runs_main g (acts a ∷ hs) (m, n) h =
        let next = act-IsRunning p cfg e sets positive g a m h in
        ap
          (λ b.
            exit_status
              (if b then ended 2 else run_main p wired_server (act p wired_server g a) hs))
          (has_died-alive (act p wired_server g a).goroutine next.alive)
        ∙ runs_main (act p wired_server g a) hs n next
    runs_main g (server_returns none ∷ hs) (m, n) h = runs_main g hs n h
    runs_main g (server_returns (some server_closed) ∷ hs) (m, n) h = runs_main g hs n h
    runs_main g (server_returns (some (other_error x)) ∷ hs) (m, n) h = refl
    runs_main g (signalled ∷ hs) n h = ap some (shut_down-running wired_server g h)

  -- After the start, whatever else happens, the program runs until it is signalled or its server
  -- fails, and then ends: with code 0 after the signal, whatever the shutdown of the HTTP server
  -- gives, and with code 1 after a failure; no panic ends it with 2, if the refresh interval is
  -- positive and the ids in the daemon's answers to the event goroutine have at least twelve bytes.
  pub run_main-first_end :
      (cfg : Config) (srv : Server p.set) (c : Cache Cached) (hs : List Happening)
      → start p cfg ≡ serves srv c
      → ltb_ℤ (pos 0) (interval cfg.stats_interval_ms) ≡ true
      → All IsHarmless hs
      → exit_status (run_main p srv (first_program p srv c) hs) ≡ first_end hs
  run_main-first_end cfg srv c hs started positive n =
      on_start p (λ t d. exit_status (run_main p t (first_program p t d) hs) ≡ first_end hs) cfg srv
        c started
        (λ sets.
          runs_main cfg cfg.terminal_enabled sets positive _ hs n
            (first-IsRunning p cfg cfg.terminal_enabled sets positive))

  -- A start that does not serve.
  abbrev IsFailure : Start p → Type 0
  IsFailure (exits code) = code ≢ 0
  IsFailure (serves srv c) = Unit

  or_exit-IsFailure :
      {A : Type 0} (r : Result A) (next : A → Start p)
      → ((a : A) → IsFailure (next a))
      → IsFailure (or_exit p r next)
  or_exit-IsFailure (ok a) next h = h a
  or_exit-IsFailure (err e) next h = λ z. omega (arith, z)
  or_exit-IsFailure panic next h = λ z. omega (arith, z)

  start-IsFailure : (cfg : Config) → IsFailure (start p cfg)
  unfolding start
  start-IsFailure cfg =
      or_exit-IsFailure (new_read_only_client p.sdk cfg.docker_socket) from_client (λ client.
        or_exit-IsFailure (p.sdk.ping client) from_ping (λ version.
          or_exit-IsFailure (exec_made p cfg) from_exec (λ e.
            or_exit-IsFailure (new_server p.base p.execute p.mux p.files p.floats p.engine cfg e)
              from_server (λ t. tt))))
    where
      from_server : Server p.set → Start p
      from_server t = serves t (new cfg.cache_ttl)

      from_exec : Bool → Start p
      from_exec e =
          or_exit p (new_server p.base p.execute p.mux p.files p.floats p.engine cfg e) from_server

      from_ping : Str → Start p
      from_ping version = or_exit p (exec_made p cfg) from_exec

      from_client : p.client → Start p
      from_client client = or_exit p (p.sdk.ping client) from_ping

  -- The program ends with code 0 only by a signal. If its start fails, it ends with the code of
  -- that failure, which is not 0. Else, whatever happens, it runs until it is signalled or its
  -- server fails, and then ends: with code 0 after the signal, whatever the shutdown of the HTTP
  -- server gives, and with code 1 after a failure; no panic ends it with 2, if the refresh interval
  -- is positive and the ids in the daemon's answers to the event goroutine have at least twelve
  -- bytes.
  pub main-first_end :
      (getenv : Str → Str) (parse_duration : Str → Option ℤ) (hs : List Happening)
      → ltb_ℤ (pos 0) (interval (load getenv parse_duration).stats_interval_ms) ≡ true
      → All IsHarmless hs
      → ((code : ℕ) × (start p (load getenv parse_duration) ≡ exits code)
          × (code ≢ 0)
          × (exit_status (main p getenv parse_duration hs).1 ≡ some code))
        ⊎ (exit_status (main p getenv parse_duration hs).1 ≡ first_end hs)
  unfolding main
  main-first_end getenv parse_duration hs positive n =
      by_start (start p cfg) refl (start-IsFailure cfg)
    where
      cfg : Config
      cfg = load getenv parse_duration

      by_start :
          (x : Start p)
          → start p cfg ≡ x
          → IsFailure x
          → ((code : ℕ) × (start p cfg ≡ exits code)
              × (code ≢ 0)
              × (exit_status (after_start p (start p cfg) hs) ≡ some code))
            ⊎ (exit_status (after_start p (start p cfg) hs) ≡ first_end hs)
      by_start (exits code) e f = inl (code, e, f, ap (λ x. exit_status (after_start p x hs)) e)
      by_start (serves srv c) e f = inr (
          ap (λ x. exit_status (after_start p x hs)) e
          ∙ run_main-first_end cfg srv c hs e positive n)
