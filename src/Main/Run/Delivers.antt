-- ===== src/Main/Run/Delivers.antt =====
-- From a Docker event to a stream, in a running program (cmd/wingstation/main.go).
use mathlib.Core.List.{foldl}
use wingstation.Prelude.{
  Str, bytes, true, Bool, List, [], ◌∷◌, ◌++◌, some, ◌≡◌, sym, ◌∙◌, All, All-append, length, ltb, ℕ,
  ◌&&◌, false, refl,
}
use wingstation.Prelude.Int.{pos, ltb_ℤ}
use wingstation.Go.Result.{ok}
use wingstation.Cache.{Cache}
use wingstation.Config.{Config}
use wingstation.Docker.Models.{Container}
use wingstation.Service.Groups.{group_containers}
use wingstation.Service.Listing.{Cached, ListInput, fetched}
use wingstation.Service.Listing.Laws.{IsAnswer}
use wingstation.Server.Events.{concat, event_text}
use wingstation.Server.Broker.{Channel, capacity}
use wingstation.Server.Broker.Places.{channel_at}
use wingstation.Server.Broker.Reach.{IsSound, Reachable-IsSound}
use wingstation.Server.Site.{no_data, page_data}
use wingstation.Server.Setup.{Server}
use wingstation.Server.Watch.{DockerMessage, checks, message, interval, to_end}
use wingstation.Server.Watch.Fresh.{refreshed, handles}
use wingstation.Server.Watch.Delivery.{channel_at-All, Waits, StillWaits, then_update}
use wingstation.Main.{Platform, start, serves, site_of}
use wingstation.Main.Run.{
  Program, Action, and_rests, in_a_row, hub_of, IsAnswered, first_program, act,
}
use wingstation.Main.Run.Invariant.{IsRunning, start-IsRunning}
use wingstation.Main.Run.Follows.{start-handle_docker_event}

open_if : (r c : Bool) → (r && c) ≡ false → r ≡ true → c ≡ false
open_if r c h e = rw e at h

-- A channel in the map of a running program waits with its messages.
in_map :
    (p : Platform) (g : Program) (k : ℕ) (ch : Channel)
    → IsRunning p g
    → channel_at k g.broker.channels ≡ some ch
    → ch.registered ≡ true
    → Waits k g.broker ch.buffer
in_map p g k ch h found registered =
    let sound =
      channel_at-All IsSound k g.broker.channels ch (Reachable-IsSound h.broker_reached) found in
    record {
      channel = ch;
      found = found;
      registered = registered;
      is_open = open_if ch.registered ch.closed sound.is_open registered;
      waiting = refl;
    }

module _ (p : Platform) (cfg : Config) (srv : Server p.set) (c : Cache Cached)
    (actions : List Action) (j : ListInput) where
  -- The program after the actions, when the goroutine is in no call.
  abbrev pub reached : Program
  reached = foldl (act p srv) (first_program p srv c) (and_rests actions j)

  -- At every moment of a run of the program after its start, when the goroutine has come to the end
  -- of the call that it is in, a Docker event after its next check that is handled without
  -- interruption reaches the browsers: to the messages that wait for a stream that is there and has
  -- room, the groups of what the daemon lists then are added, rendered, if events are enabled, the
  -- refresh interval is positive, the ids in the daemon's answers to the goroutine have at least
  -- twelve bytes, the daemon lists its containers and the template does not fail.
  pub start-StillWaits :
      (m : DockerMessage) (i : ListInput) (cs : List Container) (chunks : List Str) (k : ℕ)
      (ch : Channel)
      → start p cfg ≡ serves srv c
      → cfg.sse_enabled ≡ true
      → ltb_ℤ (pos 0) (interval cfg.stats_interval_ms) ≡ true
      → All IsAnswered actions
      → IsAnswer j.answer
      → IsAnswer i.answer
      → fetched (site_of p srv).unicode i ≡ ok cs
      → (site_of p srv).partials (bytes "container_list") (
          page_data
            (record no_data { groups = some (group_containers (site_of p srv).runtime cs) }))
        ≡ (chunks, true)
      → channel_at k reached.broker.channels ≡ some ch
      → ch.registered ≡ true
      → ltb (length ch.buffer) capacity ≡ true
      → StillWaits k
          (foldl (act p srv) reached (in_a_row (checks ∷ message m ∷ to_end i))).broker
          (ch.buffer ++ event_text (bytes "containers") (concat chunks) ∷ [])
  start-StillWaits m i cs chunks k ch started on positive n b a listed renders found registered
        room =
      let s = site_of p srv in
      let next = hub_of (foldl (act p srv) reached (in_a_row (checks ∷ message m ∷ to_end i))) in
      then_update k s m (concat chunks) (refreshed s (hub_of reached) i cs listed) next ch.buffer
        (sym (handles s (hub_of reached) i cs listed m chunks renders)
          ∙ start-handle_docker_event p cfg srv c actions m j i started on positive n b a)
        (in_map p reached k ch
          (start-IsRunning p cfg srv c (and_rests actions j) started positive
            (All-append IsAnswered actions (in_a_row (to_end j)) n (b, (b, (b, (b, tt))))))
          found registered)
        room
