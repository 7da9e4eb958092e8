-- ===== src/Main/Run/ReadOnly.antt =====
-- A program (cmd/wingstation/main.go) without a terminal asks for no exec.
use mathlib.Core.List.{foldl}
use wingstation.Prelude.{Str, false, List, [], ◌∷◌, Option, none, some, ◌≡◌, refl, ◌∙◌, subst, sym}
use wingstation.Cache.{Cache, new}
use wingstation.Config.{Config}
use wingstation.Service.Listing.{Cached}
use wingstation.Server.Routes.ReadOnly.{serve-execs}
use wingstation.Server.Setup.{Server, wired}
use wingstation.Server.Watch.{Signal, Phase}
use wingstation.Main.{Platform, start, serves}
use wingstation.Main.Safe.{on_start}
use wingstation.Main.Run.{
  Program, Action, asks, list_ends, inspect_ends, info_ends, sweeps_at, turns, joins, leaves, takes,
  first_program, take_turn, act,
}

module _ (p : Platform) where
  take_turn-execs :
      (srv : Server p.set) (g : Program) (o : Option Phase) (signal : Signal)
      → (take_turn p srv g o signal).world.execs ≡ g.world.execs
  take_turn-execs srv g none signal = refl
  take_turn-execs srv g (some phase) signal = refl

  module _ (cfg : Config) (sets : List (Str × p.set) × p.set) where
    abbrev srv : Server p.set
    srv = wired p.base p.execute p.mux cfg false sets

    act-execs : (g : Program) (a : Action) → (act p srv g a).world.execs ≡ g.world.execs
    unfolding act wired
    act-execs g (asks r i) = serve-execs _ cfg i p.mux r g.world
    act-execs g (list_ends i) = refl
    act-execs g (inspect_ends id i) = refl
    act-execs g (info_ends i) = refl
    act-execs g (sweeps_at now) = refl
    act-execs g (turns signal) = take_turn-execs srv g g.goroutine signal
    act-execs g joins = refl
    act-execs g (leaves i) = refl
    act-execs g (takes i) = refl

    run-execs :
        (g : Program) (actions : List Action)
        → (foldl (act p srv) g actions).world.execs ≡ g.world.execs
    run-execs g [] = refl
    run-execs g (a ∷ actions) = run-execs (act p srv g a) actions ∙ act-execs g a

  -- A program that starts with the terminal disabled stays read-only: whatever is requested of it,
  -- by whomever, whatever the daemon answers and whatever else happens, it never asks for an exec.
  pub start-read_only :
      (cfg : Config) (srv : Server p.set) (c : Cache Cached) (actions : List Action)
      → start p cfg ≡ serves srv c
      → cfg.terminal_enabled ≡ false
      → (foldl (act p srv) (first_program p srv c) actions).world.execs ≡ []
  unfolding first_program
  start-read_only cfg srv c actions started off =
      on_start p (λ t d. (foldl (act p t) (first_program p t d) actions).world.execs ≡ []) cfg srv c
        started
        (λ sets.
          subst
            (λ e.
              (foldl (act p (wired p.base p.execute p.mux cfg e sets))
                (first_program p (wired p.base p.execute p.mux cfg e sets) (new cfg.cache_ttl))
                actions).world.execs
              ≡ [])
            (sym off) (run-execs cfg sets _ actions))
