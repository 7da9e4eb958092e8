-- ===== src/Main/Run.antt =====
-- cmd/wingstation/main.go: the whole program, from its start on: requests, sweeps, turns of the
-- goroutine that follows the Docker events, and streams that come and go, in any order. A request
-- is one step, but for the calls of the services that end later: their last part is an action of
-- its own. A call of the goroutine is as many turns as it has parts, with other actions between
-- them.
pub mod Invariant
pub mod ReadOnly
pub mod Shown
pub mod Follows
pub mod Delivers
use mathlib.Core.List.{foldl}
use wingstation.Prelude.{
  Str, Bool, true, List, [], ◌∷◌, ◌++◌, map, ◌≡◌, sym, subst, All, Option, none, some, ℕ,
}
use wingstation.Prelude.Int.{ℤ, pos, ltb_ℤ}
use wingstation.Cache.{Cache, sweep}
use wingstation.Config.{Config}
use wingstation.Service.Listing.{Cached, ListInput, InspectInput, finish_list, finish_inspect}
use wingstation.Service.Listing.Reach.{
  Reachable, starts, steps, sweeps, ends_list, ends_inspect, ends_info,
}
use wingstation.Service.Host.{HostInput, finish_info}
use wingstation.Server.Http.{Request}
use wingstation.Server.Site.{Site, Answers}
use wingstation.Server.Broker.{Broker, new_broker, subscribe, unsubscribe, receive}
use wingstation.Server.Broker.Reach
use wingstation.Server.Middleware.{World}
use wingstation.Server.Routes.{Mux, serve}
use wingstation.Server.Routes.Reach.{serve-Reachable}
use wingstation.Server.Setup.{Server, start_server}
use wingstation.Server.Watch.{Hub, Signal, Phase, connecting, interval, watch_step, to_end}
use wingstation.Server.Watch.Safe.{IsWatching, HasAnswer, watch_step-IsWatching}
use wingstation.Main.{Platform, start, serves, site_of, first_world}
use wingstation.Main.Safe.{start-IsServing}

-- What changes while the program runs. `broker` is the server's; `goroutine` is the phase of the
-- goroutine that follows the Docker events, if it was started.
pub record Program : Type 0 where
  pub world : World
  pub broker : Broker
  pub goroutine : Option Phase

-- A request is served, a call of a service that a request has made ends, the
-- cleanup goroutine sweeps the cache, the event goroutine takes a turn, a stream begins, ends, or
-- takes a message.
pub data Action : Type 0 where
  asks : Request → Answers → Action
  list_ends : ListInput → Action
  inspect_ends : Str → InspectInput → Action
  info_ends : HostInput → Action
  sweeps_at : ℤ → Action
  turns : Signal → Action
  joins : Action
  leaves : ℕ → Action
  takes : ℕ → Action

-- Turns of the goroutine, with nothing else between them.
abbrev pub in_a_row : List Signal → List Action
in_a_row = map turns

-- Some actions, after which the goroutine comes to the end of the call that it is in, if it is in
-- one, with nothing else meanwhile.
abbrev pub and_rests : List Action → ListInput → List Action
and_rests actions j = actions ++ in_a_row (to_end j)

abbrev pub hub_of : Program → Hub
hub_of g = record { cache = g.world.cache; broker = g.broker }

abbrev pub with_cache : Program → Cache Cached → Program
with_cache g c = record g { world = record g.world { cache = c } }

-- What a turn of the goroutine makes of the program.
abbrev pub after_turn : Program → Phase × Hub → Program
after_turn g (phase, h) = record {
  world = record g.world { cache = h.cache };
  broker = h.broker;
  goroutine = some phase;
}

-- The answers of the daemon that the goroutine gets can be converted.
abbrev pub IsAnswered : Action → Type 0
IsAnswered (turns signal) = HasAnswer signal
IsAnswered (asks r i) = Unit
IsAnswered (list_ends i) = Unit
IsAnswered (inspect_ends id i) = Unit
IsAnswered (info_ends i) = Unit
IsAnswered (sweeps_at now) = Unit
IsAnswered joins = Unit
IsAnswered (leaves i) = Unit
IsAnswered (takes i) = Unit

module _ (p : Platform) (srv : Server p.set) where
  -- `srv.Start()`, with the cache that the services share.
  unfoldable pub first_program : Cache Cached → Program
  unfolding start_server
  first_program c = record {
    world = first_world c;
    broker = srv.sse;
    goroutine = (start_server srv).0;
  }

  -- A turn of the goroutine, if it was started.
  abbrev pub take_turn : Program → Option Phase → Signal → Program
  take_turn g none signal = g
  take_turn g (some phase) signal =
      after_turn g (watch_step (site_of p srv) srv.cfg.stats_interval_ms (phase, hub_of g) signal)

  unfoldable pub act : Program → Action → Program
  act g (asks r i) = record g { world = (srv.http_server.handler i r g.world).1 }
  act g (list_ends i) = with_cache g (finish_list p.base.unicode g.world.cache i).1
  act g (inspect_ends id i) =
      with_cache g (finish_inspect p.base.unicode p.base.proto g.world.cache id i).1
  act g (info_ends i) = with_cache g (finish_info g.world.cache i).1
  act g (sweeps_at now) = with_cache g (sweep now g.world.cache)
  act g (turns signal) = take_turn g g.goroutine signal
  act g joins = record g { broker = (subscribe g.broker).1 }
  act g (leaves i) = record g { broker = unsubscribe i g.broker }
  act g (takes i) = record g { broker = receive i g.broker }
