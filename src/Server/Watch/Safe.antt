-- ===== src/Server/Watch/Safe.antt =====
-- The goroutine of the Docker events at any moment of a run of the cache and of the broker.
use wingstation.Prelude.{
  Str, bytes, Bool, true, false, Option, none, some, List, ◌≡◌, ◌≢◌, refl, sym, ap, subst,
  if◌then◌else◌,
}
use wingstation.Prelude.Int.{ℤ, pos, ltb_ℤ}
use wingstation.Go.Result.{Result, ok, err, panic, and_then, and_then-no_panic}
use wingstation.Docker.Models.{Container, ContainerGroup}
use wingstation.Service.Listing.{
  Cached, containers_key, as_containers, finish_list, ListInput, list_containers, list_grouped,
  invalidate_cache,
}
use wingstation.Service.Listing.Reach.{Reachable, steps, lists, invalidates, ends_list}
use wingstation.Service.Listing.Laws.{
  IsAnswer, list_containers-no_panic, cached-no_panic, finish_list-no_panic,
}
use wingstation.Cache.{get}
use wingstation.Service.Groups.{group_containers}
use wingstation.Server.Broker.Reach.{broadcasts, broadcast-no_panic}
use wingstation.Server.Broker.Reach
use wingstation.Server.Site.{Site}
use wingstation.Server.Watch.{
  Hub, DockerMessage, hub_broadcast, broadcast_groups, broadcast_container_list, targeted_update,
  handle_docker_event, interval, Signal, checks, stop_seen, message, stream_failed, tick, goes_on,
  Phase, connecting, selecting, refreshing, awaiting, sending, updating, returned, dead, after_call,
  after_listing, on_get, on_listed, go_on, watch_step,
}

-- A cache and a broker that runs of them reach.
pub record IsLive (s : Site) (h : Hub) : Type 0 where
  pub cache_reached : Reachable s.unicode s.proto h.cache
  pub broker_reached : Reach.Reachable h.broker

-- The answers of the daemon that a signal carries can be converted.
abbrev pub HasAnswer : Signal → Type 0
HasAnswer (goes_on i) = IsAnswer i.answer
HasAnswer (message m) = Unit
HasAnswer tick = Unit
HasAnswer checks = Unit
HasAnswer stop_seen = Unit
HasAnswer stream_failed = Unit

module _ (s : Site) where
  -- A call on the hub that comes back, to a hub as before.
  abbrev pub Succeeds : Result Hub → Type 0
  Succeeds r = (d : Hub) × (r ≡ ok d) × IsLive s d

  hub_broadcast-Succeeds :
      (name payload : Str) (h : Hub) → IsLive s h → Succeeds (hub_broadcast name payload h)
  hub_broadcast-Succeeds name payload h l =
      let (b, e) = broadcast-no_panic h.broker name payload l.broker_reached in
      (
        record h { broker = b },
        ap (λ r. and_then r (λ b. ok (record h { broker = b })) err) e,
        record {
          cache_reached = l.cache_reached;
          broker_reached = Reach.steps l.broker_reached (broadcasts h.broker b name payload e);
        },
      )

  in_either :
      (b : Bool) (x : Result Hub) (h : Hub)
      → Succeeds x
      → IsLive s h
      → Succeeds (if b then x else ok h)
  in_either true x h p l = p
  in_either false x h p l = (h, refl, l)

  broadcast_groups-Succeeds :
      (h : Hub) (groups : List ContainerGroup) → IsLive s h → Succeeds (broadcast_groups s h groups)
  unfolding broadcast_groups
  broadcast_groups-Succeeds h groups l =
      in_either _ _ h (hub_broadcast-Succeeds (bytes "containers") _ h l) l

  from_groups :
      (h : Hub) (groups : Result (List ContainerGroup))
      → groups ≢ panic
      → IsLive s h
      → Succeeds (and_then groups (broadcast_groups s h) (λ e. ok h))
  from_groups h (ok gs) n l = broadcast_groups-Succeeds h gs l
  from_groups h (err e) n l = (h, refl, l)
  from_groups h panic n l = absurd (n refl)

  broadcast_container_list-Succeeds :
      (h : Hub) (i : ListInput)
      → IsLive s h
      → IsAnswer i.answer
      → Succeeds (broadcast_container_list s h i)
  unfolding broadcast_container_list list_grouped
  broadcast_container_list-Succeeds h i l a =
      let after = (list_containers s.unicode h.cache i).1 in
      from_groups (record h { cache = after }) _
        (and_then-no_panic (list_containers s.unicode h.cache i).0 _ (λ e. e)
          (list_containers-no_panic s.unicode s.proto h.cache i l.cache_reached a) (λ cs e p. cc))
        (record {
          cache_reached = steps l.cache_reached (lists h.cache i);
          broker_reached = l.broker_reached;
        })

  targeted_update-Succeeds :
      (m : DockerMessage) (h : Hub) → IsLive s h → Succeeds (targeted_update s m h)
  unfolding targeted_update
  targeted_update-Succeeds m h l =
      in_either _ _ h (hub_broadcast-Succeeds (bytes "container-update") _ h l) l

  pub handle_docker_event-Succeeds :
      (m : DockerMessage) (h : Hub) (i : ListInput)
      → IsLive s h
      → IsAnswer i.answer
      → Succeeds (handle_docker_event s m h i)
  unfolding handle_docker_event
  handle_docker_event-Succeeds m h i l a =
      let (d, e, k) =
        broadcast_container_list-Succeeds (record h { cache = invalidate_cache h.cache }) i
          (record {
            cache_reached = steps l.cache_reached (invalidates h.cache);
            broker_reached = l.broker_reached;
          })
          a in
      subst (λ r. Succeeds (and_then r (targeted_update s m) err)) (sym e)
        (targeted_update-Succeeds m d k)

  -- The goroutine has not been ended by a panic, and the hub is as before.
  pub record IsWatching (x : Phase × Hub) : Type 0 where
    pub alive : x.0 ≢ dead
    pub live : IsLive s x.1

  turned : (p : Phase) (h : Hub) → p ≢ dead → IsLive s h → IsWatching (p, h)
  turned p h n l = record { alive = n; live = l }

  after_call-IsWatching :
      (next : Phase) (h : Hub) (r : Result Hub)
      → next ≢ dead
      → Succeeds r
      → IsWatching (after_call s next h r)
  after_call-IsWatching next h r n (d, e, l) =
      subst (λ q. IsWatching (after_call s next h q)) (sym e) (turned next d n l)

  after_listing-alive : (o : Option DockerMessage) → after_listing o ≢ dead
  after_listing-alive none = λ e. cc
  after_listing-alive (some m) = λ e. cc

  on_listed-IsWatching :
      (o : Option DockerMessage) (h : Hub) (r : Result (List Container))
      → r ≢ panic
      → IsLive s h
      → IsWatching (on_listed s o h r)
  on_listed-IsWatching o h (ok cs) n l =
      turned (sending (group_containers s.runtime cs) o) h (λ p. cc) l
  on_listed-IsWatching o h (err e) n l = turned (after_listing o) h (after_listing-alive o) l
  on_listed-IsWatching o h panic n l = absurd (n refl)

  refreshing-IsWatching :
      (o : Option DockerMessage) (h : Hub) (i : ListInput) (v : Option Cached)
      → get h.cache i.asked containers_key ≡ v
      → IsLive s h
      → IsWatching (on_get s o h v)
  refreshing-IsWatching o h i none e l = turned (awaiting o) h (λ p. cc) l
  refreshing-IsWatching o h i (some v) e l =
      on_listed-IsWatching o h (as_containers v)
        (cached-no_panic s.unicode s.proto h.cache i.asked v l.cache_reached e) l

  go_on-IsWatching :
      (p : Phase) (h : Hub) (i : ListInput)
      → IsWatching (p, h)
      → IsAnswer i.answer
      → IsWatching (go_on s p h i)
  unfolding go_on
  go_on-IsWatching connecting h i w a = w
  go_on-IsWatching selecting h i w a = w
  go_on-IsWatching (refreshing o) h i w a =
      refreshing-IsWatching o h i (get h.cache i.asked containers_key) refl w.live
  go_on-IsWatching (awaiting o) h i w a =
      let after = finish_list s.unicode h.cache i in
      on_listed-IsWatching o (record h { cache = after.1 }) after.0
        (finish_list-no_panic s.unicode s.proto h.cache i a)
        (record {
          cache_reached = steps w.live.cache_reached (ends_list h.cache i);
          broker_reached = w.live.broker_reached;
        })
  go_on-IsWatching (sending groups o) h i w a =
      after_call-IsWatching (after_listing o) h _ (after_listing-alive o)
        (broadcast_groups-Succeeds h groups w.live)
  go_on-IsWatching (updating m) h i w a =
      after_call-IsWatching selecting h _ (λ p. cc) (targeted_update-Succeeds m h w.live)
  go_on-IsWatching returned h i w a = w
  go_on-IsWatching dead h i w a = w

  either_phase :
      (b : Bool) (x y : Phase × Hub) → IsWatching x → IsWatching y → IsWatching (if b then x else y)
  either_phase true x y p q = p
  either_phase false x y p q = q

  -- Each turn of the goroutine that follows the Docker events, at every moment of a run of the
  -- cache and of the broker, leaves them in such a moment, and does not end the process by a
  -- panic, if the refresh interval is positive and the ids of the daemon's answer have at least
  -- twelve bytes.
  pub watch_step-IsWatching :
      (ms : ℤ) (p : Phase) (h : Hub) (signal : Signal)
      → ltb_ℤ (pos 0) (interval ms) ≡ true
      → IsWatching (p, h)
      → HasAnswer signal
      → IsWatching (watch_step s ms (p, h) signal)
  unfolding watch_step
  watch_step-IsWatching ms connecting h checks positive w a =
      either_phase h.broker.stopped _ _ (turned returned h (λ p. cc) w.live)
        (rw positive (turned selecting h (λ p. cc) w.live))
  watch_step-IsWatching ms connecting h stop_seen positive w a = w
  watch_step-IsWatching ms connecting h (message n) positive w a = w
  watch_step-IsWatching ms connecting h stream_failed positive w a = w
  watch_step-IsWatching ms connecting h tick positive w a = w
  watch_step-IsWatching ms connecting h (goes_on i) positive w a =
      go_on-IsWatching connecting h i w a
  watch_step-IsWatching ms selecting h checks positive w a = w
  watch_step-IsWatching ms selecting h stop_seen positive w a =
      either_phase h.broker.stopped _ _ (turned connecting h (λ p. cc) w.live) w
  watch_step-IsWatching ms selecting h (message n) positive w a =
      turned (refreshing (some n)) _ (λ p. cc)
        (record {
          cache_reached = steps w.live.cache_reached (invalidates h.cache);
          broker_reached = w.live.broker_reached;
        })
  watch_step-IsWatching ms selecting h stream_failed positive w a =
      turned connecting h (λ p. cc) w.live
  watch_step-IsWatching ms selecting h tick positive w a =
      turned (refreshing none) h (λ p. cc) w.live
  watch_step-IsWatching ms selecting h (goes_on i) positive w a = go_on-IsWatching selecting h i w a
  watch_step-IsWatching ms (refreshing o) h checks positive w a = w
  watch_step-IsWatching ms (refreshing o) h stop_seen positive w a = w
  watch_step-IsWatching ms (refreshing o) h (message n) positive w a = w
  watch_step-IsWatching ms (refreshing o) h stream_failed positive w a = w
  watch_step-IsWatching ms (refreshing o) h tick positive w a = w
  watch_step-IsWatching ms (refreshing o) h (goes_on i) positive w a =
      go_on-IsWatching (refreshing o) h i w a
  watch_step-IsWatching ms (awaiting o) h checks positive w a = w
  watch_step-IsWatching ms (awaiting o) h stop_seen positive w a = w
  watch_step-IsWatching ms (awaiting o) h (message n) positive w a = w
  watch_step-IsWatching ms (awaiting o) h stream_failed positive w a = w
  watch_step-IsWatching ms (awaiting o) h tick positive w a = w
  watch_step-IsWatching ms (awaiting o) h (goes_on i) positive w a =
      go_on-IsWatching (awaiting o) h i w a
  watch_step-IsWatching ms (sending groups o) h checks positive w a = w
  watch_step-IsWatching ms (sending groups o) h stop_seen positive w a = w
  watch_step-IsWatching ms (sending groups o) h (message n) positive w a = w
  watch_step-IsWatching ms (sending groups o) h stream_failed positive w a = w
  watch_step-IsWatching ms (sending groups o) h tick positive w a = w
  watch_step-IsWatching ms (sending groups o) h (goes_on i) positive w a =
      go_on-IsWatching (sending groups o) h i w a
  watch_step-IsWatching ms (updating m) h checks positive w a = w
  watch_step-IsWatching ms (updating m) h stop_seen positive w a = w
  watch_step-IsWatching ms (updating m) h (message n) positive w a = w
  watch_step-IsWatching ms (updating m) h stream_failed positive w a = w
  watch_step-IsWatching ms (updating m) h tick positive w a = w
  watch_step-IsWatching ms (updating m) h (goes_on i) positive w a =
      go_on-IsWatching (updating m) h i w a
  watch_step-IsWatching ms returned h checks positive w a = w
  watch_step-IsWatching ms returned h stop_seen positive w a = w
  watch_step-IsWatching ms returned h (message n) positive w a = w
  watch_step-IsWatching ms returned h stream_failed positive w a = w
  watch_step-IsWatching ms returned h tick positive w a = w
  watch_step-IsWatching ms returned h (goes_on i) positive w a = go_on-IsWatching returned h i w a
  watch_step-IsWatching ms dead h checks positive w a = w
  watch_step-IsWatching ms dead h stop_seen positive w a = w
  watch_step-IsWatching ms dead h (message n) positive w a = w
  watch_step-IsWatching ms dead h stream_failed positive w a = w
  watch_step-IsWatching ms dead h tick positive w a = w
  watch_step-IsWatching ms dead h (goes_on i) positive w a = go_on-IsWatching dead h i w a
