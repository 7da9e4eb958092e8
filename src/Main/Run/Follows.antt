-- ===== src/Main/Run/Follows.antt =====
-- The goroutine of a running program (cmd/wingstation/main.go) that follows the Docker events.
use mathlib.Core.List.{foldl, foldl-append}
use mathlib.Core.Option.{some-injective}
use wingstation.Prelude.{
  Str, Bool, true, false, List, [], ◌∷◌, Option, none, some, ◌≡◌, ◌≢◌, refl, sym, ◌∙◌, ap, subst,
  All, if◌then◌else◌,
}
use wingstation.Prelude.Int.{pos, ltb_ℤ}
use wingstation.Go.Result.{ok}
use wingstation.Cache.{Cache, new}
use wingstation.Config.{Config}
use wingstation.Service.Listing.{Cached, ListInput}
use wingstation.Service.Listing.Laws.{IsAnswer}
use wingstation.Server.Setup.{Server, with_templates, wired, start_server}
use wingstation.Server.Watch.Whole.{to_end-IsBetween}
use wingstation.Server.Watch.{
  DockerMessage, handle_docker_event, interval, Signal, checks, message, Phase, connecting,
  returned, watch_step, to_end,
}
use wingstation.Server.Watch.Alive.{watch_step-not_returned, next_event}
use wingstation.Server.Watch.Safe.{handle_docker_event-Succeeds}
use wingstation.Main.{Platform, start, serves, site_of}
use wingstation.Main.Safe.{on_start}
use wingstation.Main.Run.{
  Program, Action, asks, list_ends, inspect_ends, info_ends, sweeps_at, turns, joins, leaves, takes,
  after_turn, in_a_row, and_rests, hub_of, IsAnswered, first_program, take_turn, act,
}
use wingstation.Main.Run.Invariant.{IsRunning, act-IsRunning, first-IsRunning}

module _ (p : Platform) (srv : Server p.set) where
  -- The goroutine was started and has not returned.
  abbrev Follows : Program → Type 0
  Follows g = (phase : Phase) × (g.goroutine ≡ some phase) × (phase ≢ returned)

  take_turn-Follows :
      (g : Program) (o : Option Phase) (signal : Signal)
      → g.broker.stopped ≡ false
      → (phase : Phase) → o ≡ some phase
      → phase ≢ returned
      → Follows (take_turn p srv g o signal)
  take_turn-Follows g none signal runs phase e n = cc
  take_turn-Follows g (some x) signal runs phase e n = (
    _,
    refl,
    watch_step-not_returned (site_of p srv) srv.cfg.stats_interval_ms x (hub_of g) signal runs
        (subst (λ y. y ≢ returned) (sym (some-injective x phase e)) n),
  )

  act-Follows :
      (g : Program) (a : Action) → g.broker.stopped ≡ false → Follows g → Follows (act p srv g a)
  unfolding act
  act-Follows g (asks r i) runs f = f
  act-Follows g (list_ends i) runs f = f
  act-Follows g (inspect_ends id i) runs f = f
  act-Follows g (info_ends i) runs f = f
  act-Follows g (sweeps_at now) runs f = f
  act-Follows g (turns signal) runs (phase, e, n) =
      take_turn-Follows g g.goroutine signal runs phase e n
  act-Follows g joins runs f = f
  act-Follows g (leaves i) runs f = f
  act-Follows g (takes i) runs f = f

  -- Turns in a row are those of the goroutine on its own.
  in_a_row-turns :
      (g : Program) (phase : Phase) (signals : List Signal)
      → g.goroutine ≡ some phase
      → foldl (act p srv) g (in_a_row signals)
        ≡ after_turn g
            (foldl (watch_step (site_of p srv) srv.cfg.stats_interval_ms) (phase, hub_of g) signals)
  unfolding act
  in_a_row-turns g phase [] e = ap (λ o. record g { goroutine = o }) e
  in_a_row-turns g phase (signal ∷ signals) e =
      let next = watch_step (site_of p srv) srv.cfg.stats_interval_ms (phase, hub_of g) signal in
      act-turns g phase signal signals e ∙ in_a_row-turns (after_turn g next) next.0 signals refl
    where
      act-turns :
          (g : Program) (phase : Phase) (signal : Signal) (signals : List Signal)
          → g.goroutine ≡ some phase
          → foldl (act p srv) g (in_a_row (signal ∷ signals))
            ≡ foldl (act p srv) (take_turn p srv g (some phase) signal) (in_a_row signals)
      act-turns g phase signal signals e =
          ap (λ o. foldl (act p srv) (take_turn p srv g o signal) (in_a_row signals)) e

module _ (p : Platform) where
  module _ (cfg : Config) (e : Bool) (sets : List (Str × p.set) × p.set)
      (positive : ltb_ℤ (pos 0) (interval cfg.stats_interval_ms) ≡ true) where
    abbrev wired_server : Server p.set
    wired_server = wired p.base p.execute p.mux cfg e sets

    run-Follows :
        (g : Program) (actions : List Action)
        → All IsAnswered actions
        → IsRunning p g
        → Follows p wired_server g
        → IsRunning p (foldl (act p wired_server) g actions)
          × Follows p wired_server (foldl (act p wired_server) g actions)
    run-Follows g [] n h f = (h, f)
    run-Follows g (a ∷ actions) (m, n) h f =
        run-Follows (act p wired_server g a) actions n (act-IsRunning p cfg e sets positive g a m h)
          (act-Follows p wired_server g a h.broker_runs f)

    first-Follows :
        cfg.sse_enabled ≡ true
        → Follows p wired_server (first_program p wired_server (new cfg.cache_ttl))
    unfolding first_program start_server wired
    first-Follows on = (connecting, ap (λ b. if b then some connecting else none) on, λ e. cc)

    follows_event :
        (g : Program) (m : DockerMessage) (j i : ListInput)
        → IsAnswer j.answer
        → IsAnswer i.answer
        → IsRunning p g
        → Follows p wired_server g
        → let rested = foldl (act p wired_server) g (in_a_row (to_end j)) in
          handle_docker_event (site_of p wired_server) m (hub_of rested) i
          ≡ ok (
              hub_of (foldl (act p wired_server) rested (in_a_row (checks ∷ message m ∷ to_end i))))
    unfolding wired site_of with_templates
    follows_event g m j i b a h (start_phase, same, n) =
        let s = site_of p wired_server in
        let ms = cfg.stats_interval_ms in
        let x = foldl (watch_step s ms) (start_phase, hub_of g) (to_end j) in
        let rested = foldl (act p wired_server) g (in_a_row (to_end j)) in
        let (h, (phase, is_phase, not_returned)) =
          run-Follows g (in_a_row (to_end j)) (b, (b, (b, (b, tt)))) h (start_phase, same, n) in
        let there =
          ap (λ k. k.goroutine) (in_a_row-turns p wired_server g start_phase (to_end j) same) in
        let (d, handled, _) =
          handle_docker_event-Succeeds s m (hub_of rested) i
            (record { cache_reached = h.cache_reached; broker_reached = h.broker_reached }) a in
        let (_, follows) =
          next_event s ms x.0 (hub_of rested) d m i h.broker_runs positive
            (to_end-IsBetween s ms (start_phase, hub_of g) j)
            (subst (λ y. y ≢ returned) (some-injective phase x.0 (sym is_phase ∙ there))
              not_returned)
            (λ q. h.alive (there ∙ ap some q)) handled in
        handled
        ∙ ap ok (
            sym (
              ap hub_of
                (in_a_row-turns p wired_server rested x.0 (checks ∷ message m ∷ to_end i) there)
              ∙ ap (λ y. y.1) follows))

  -- At every moment of a run of the program after its start, however often the stream of the Docker
  -- events has failed before, when the goroutine has come to the end of the call that it is in, the
  -- event that follows its next check is handled, without interruption, on the cache and the broker
  -- of that moment, if events are enabled, the refresh interval is positive, and the ids in the
  -- daemon's answers to the goroutine have at least twelve bytes.
  pub start-handle_docker_event :
      (cfg : Config) (srv : Server p.set) (c : Cache Cached) (actions : List Action)
      (m : DockerMessage) (j i : ListInput)
      → start p cfg ≡ serves srv c
      → cfg.sse_enabled ≡ true
      → ltb_ℤ (pos 0) (interval cfg.stats_interval_ms) ≡ true
      → All IsAnswered actions
      → IsAnswer j.answer
      → IsAnswer i.answer
      → let g = foldl (act p srv) (first_program p srv c) (and_rests actions j) in
        handle_docker_event (site_of p srv) m (hub_of g) i
        ≡ ok (hub_of (foldl (act p srv) g (in_a_row (checks ∷ message m ∷ to_end i))))
  start-handle_docker_event cfg srv c actions m j i started on positive n b a =
      on_start p
        (λ t d.
          let g = foldl (act p t) (first_program p t d) (and_rests actions j) in
          handle_docker_event (site_of p t) m (hub_of g) i
          ≡ ok (hub_of (foldl (act p t) g (in_a_row (checks ∷ message m ∷ to_end i)))))
        cfg srv c started
        (λ sets.
          let e = cfg.terminal_enabled in
          let t = wired_server cfg e sets positive in
          let first = first_program p t (new cfg.cache_ttl) in
          let (h, f) =
            run-Follows cfg e sets positive first actions n (first-IsRunning p cfg e sets positive)
              (first-Follows cfg e sets positive on) in
          subst
            (λ g.
              handle_docker_event (site_of p t) m (hub_of g) i
              ≡ ok (hub_of (foldl (act p t) g (in_a_row (checks ∷ message m ∷ to_end i)))))
            (sym (foldl-append (act p t) first actions (in_a_row (to_end j))))
            (follows_event cfg e sets positive (foldl (act p t) first actions) m j i b a h f))
