-- ===== src/Main/Run/Invariant.antt =====
-- What holds at every moment of a run of the program (cmd/wingstation/main.go).
use mathlib.Core.List.{foldl}
use wingstation.Prelude.{
  Str, Bool, true, false, List, [], ◌∷◌, ◌≡◌, ◌≢◌, refl, ap, ◌∙◌, All, Option, none, some,
  if◌then◌else◌,
}
use wingstation.Prelude.Int.{pos, ltb_ℤ}
use wingstation.Cache.{Cache, new}
use wingstation.Config.{Config}
use wingstation.Service.Listing.{Cached}
use wingstation.Service.Listing.Reach.{
  Reachable, starts, steps, sweeps, ends_list, ends_inspect, ends_info,
}
use wingstation.Server.Broker.{Broker, subscribe, unsubscribe, receive}
use wingstation.Server.Broker.Reach
use wingstation.Server.Routes.Reach.{serve-Reachable}
use wingstation.Server.Setup.{Server, with_templates, wired, start_server}
use wingstation.Server.Watch.{Signal, Phase, connecting, dead, interval}
use wingstation.Server.Watch.Safe.{HasAnswer, watch_step-IsWatching}
use wingstation.Server.Watch.Stopped.{watch_step-stopped}
use wingstation.Main.{Platform, start, serves, site_of}
use wingstation.Main.Safe.{on_start}
use wingstation.Main.Run.{
  Program, Action, asks, list_ends, inspect_ends, info_ends, sweeps_at, turns, joins, leaves, takes,
  hub_of, with_cache, IsAnswered, first_program, take_turn, act,
}

module _ (p : Platform) where
  -- The goroutine is not ended by a panic, the broker is not stopped, and the cache and the broker
  -- are in states that runs of them reach.
  pub record IsRunning (g : Program) : Type 0 where
    pub alive : g.goroutine ≢ some dead
    pub broker_runs : g.broker.stopped ≡ false
    pub cache_reached : Reachable p.base.unicode p.base.proto g.world.cache
    pub broker_reached : Reach.Reachable g.broker

  some_dead : (x : Phase) → x ≢ dead → some x ≢ some dead
  some_dead x n = λ e. n cc

  first_phase : (b : Bool) → (if b then some connecting else none) ≢ some dead
  first_phase true = λ e. cc
  first_phase false = λ e. cc

  module _ (cfg : Config) (e : Bool) (sets : List (Str × p.set) × p.set)
      (positive : ltb_ℤ (pos 0) (interval cfg.stats_interval_ms) ≡ true) where
    abbrev srv : Server p.set
    srv = wired p.base p.execute p.mux cfg e sets

    take_turn-IsRunning :
        (g : Program) (o : Option Phase) (signal : Signal)
        → g.goroutine ≡ o
        → HasAnswer signal
        → IsRunning g
        → IsRunning (take_turn p srv g o signal)
    unfolding wired site_of with_templates
    take_turn-IsRunning g none signal same n h = h
    take_turn-IsRunning g (some phase) signal same n h =
        let s = site_of p srv in
        let w =
          watch_step-IsWatching s cfg.stats_interval_ms phase (hub_of g) signal positive
            (record {
              alive = λ d. h.alive (same ∙ ap some d);
              live = record { cache_reached = h.cache_reached; broker_reached = h.broker_reached };
            })
            n in
        record {
          alive = some_dead _ w.alive;
          broker_runs =
              watch_step-stopped s cfg.stats_interval_ms phase (hub_of g) signal ∙ h.broker_runs;
          cache_reached = w.live.cache_reached;
          broker_reached = w.live.broker_reached;
        }

    on_cache :
        (g : Program) (c : Cache Cached)
        → Reachable p.base.unicode p.base.proto c
        → IsRunning g
        → IsRunning (with_cache g c)
    on_cache g c r h = record {
      alive = h.alive;
      broker_runs = h.broker_runs;
      cache_reached = r;
      broker_reached = h.broker_reached;
    }

    on_broker :
        (g : Program) (b : Broker)
        → Reach.Step g.broker b
        → b.stopped ≡ g.broker.stopped
        → IsRunning g
        → IsRunning (record g { broker = b })
    on_broker g b t same h = record {
      alive = h.alive;
      broker_runs = same ∙ h.broker_runs;
      cache_reached = h.cache_reached;
      broker_reached = Reach.steps h.broker_reached t;
    }

    pub act-IsRunning :
        (g : Program) (a : Action) → IsAnswered a → IsRunning g → IsRunning (act p srv g a)
    unfolding act wired site_of with_templates subscribe unsubscribe receive
    act-IsRunning g (asks r i) n h = record {
      alive = h.alive;
      broker_runs = h.broker_runs;
      cache_reached = serve-Reachable (site_of p srv) cfg i p.mux e r g.world h.cache_reached;
      broker_reached = h.broker_reached;
    }
    act-IsRunning g (list_ends i) n h =
        on_cache g _ (steps h.cache_reached (ends_list g.world.cache i)) h
    act-IsRunning g (inspect_ends id i) n h =
        on_cache g _ (steps h.cache_reached (ends_inspect g.world.cache id i)) h
    act-IsRunning g (info_ends i) n h =
        on_cache g _ (steps h.cache_reached (ends_info g.world.cache i)) h
    act-IsRunning g (sweeps_at now) n h =
        on_cache g _ (steps h.cache_reached (sweeps g.world.cache now)) h
    act-IsRunning g (turns signal) n h = take_turn-IsRunning g g.goroutine signal refl n h
    act-IsRunning g joins n h = on_broker g _ (Reach.subscribes g.broker) refl h
    act-IsRunning g (leaves i) n h = on_broker g _ (Reach.unsubscribes g.broker i) refl h
    act-IsRunning g (takes i) n h = on_broker g _ (Reach.receives g.broker i) refl h

    run-IsRunning :
        (g : Program) (actions : List Action)
        → All IsAnswered actions
        → IsRunning g
        → IsRunning (foldl (act p srv) g actions)
    run-IsRunning g [] n h = h
    run-IsRunning g (a ∷ actions) (m, n) h =
        run-IsRunning (act p srv g a) actions n (act-IsRunning g a m h)

    pub first-IsRunning : IsRunning (first_program p srv (new cfg.cache_ttl))
    unfolding first_program start_server wired
    first-IsRunning = record {
      alive = first_phase cfg.sse_enabled;
      broker_runs = refl;
      cache_reached = starts cfg.cache_ttl;
      broker_reached = Reach.starts;
    }

  -- After the start, whatever is requested, whichever calls of the services overlap, whenever the
  -- cache is swept, whatever Docker events come and whichever streams come and go, in any order,
  -- the goroutine that follows the events is not ended by a panic, the broker is not stopped, and
  -- the cache and the broker are in states that runs of them reach, if the refresh interval is
  -- positive and the ids in the daemon's answers to the goroutine have at least twelve bytes.
  pub start-IsRunning :
      (cfg : Config) (srv : Server p.set) (c : Cache Cached) (actions : List Action)
      → start p cfg ≡ serves srv c
      → ltb_ℤ (pos 0) (interval cfg.stats_interval_ms) ≡ true
      → All IsAnswered actions
      → IsRunning (foldl (act p srv) (first_program p srv c) actions)
  start-IsRunning cfg srv c actions started positive n =
      on_start p (λ t d. IsRunning (foldl (act p t) (first_program p t d) actions)) cfg srv c
        started
        (λ sets.
          run-IsRunning cfg cfg.terminal_enabled sets positive _ actions n
            (first-IsRunning cfg cfg.terminal_enabled sets positive))
