-- ===== src/Server/Watch.antt =====
-- internal/server/sse.go: the goroutine that follows the Docker events. It works on the cache that
-- it shares with the handlers and on the broker.

pub mod Whole
pub mod Safe
pub mod Fresh
pub mod Loop
pub mod Stopped
pub mod Alive
pub mod Delivery
use wingstation.Prelude.{
  Str, bytes, str_eq, Bool, true, false, not, List, [], ◌∷◌, ◌++◌, Option, none, some, ◌*◌, ◌+◌,
  if◌then◌else◌,
}
use wingstation.Prelude.Int.{ℤ, pos, negsuc, ltb_ℤ}
use wingstation.Go.Result.{Result, ok, err, panic, and_then}
use wingstation.Cache.{Cache, get}
use wingstation.Docker.Models.{Container, ContainerGroup}
use wingstation.Service.Listing.{
  Cached, ListInput, as_containers, containers_key, finish_list, list_grouped, invalidate_cache,
}
use wingstation.Service.Groups.{group_containers}
use wingstation.Service.Host.{wrap64}
use wingstation.Server.Events.{concat}
use wingstation.Server.Broker.{Broker, broadcast}
use wingstation.Server.Site.{no_data, page_data, Site}

pub record Hub : Type 0 where
  pub cache : Cache Cached
  pub broker : Broker

-- `events.Message`, by what is read of it.
pub record DockerMessage : Type 0 where
  pub action : Str
  pub actor_id : Str

-- `fmt.Sprintf` of the targeted update.
unfoldable pub update_text : DockerMessage → Str
update_text m =
    bytes "{\"id\":\"" ++ (m.actor_id ++ (bytes "\",\"action\":\"" ++ (m.action ++ bytes "\"}")))

-- The broadcast of a text, on the hub.
abbrev pub hub_broadcast : Str → Str → Hub → Result Hub
hub_broadcast name payload h =
    and_then (broadcast name payload h.broker) (λ b. ok (record h { broker = b })) err

-- `time.Duration(ms) * time.Millisecond`
abbrev pub interval : ℤ → ℤ
interval (pos n) = wrap64 (pos (n * 1_000_000))
interval (negsuc n) = wrap64 (negsuc (n * 1_000_000 + 999_999))

-- What the goroutine meets: its check of `stopCh` before it connects, what its `select` gives, and,
-- in a call of `broadcastContainerList` or of `handleDockerEvent`, that the call goes on, with the
-- clock and the daemon's answer.
pub data Signal : Type 0 where
  checks : Signal
  stop_seen : Signal
  message : DockerMessage → Signal
  stream_failed : Signal
  tick : Signal
  goes_on : ListInput → Signal

-- Before the check, in the inner loop, in a call, returned, or ended by a panic, which ends the
-- process. Between two parts of a call no lock is held: before the `Get` of the listing, before
-- the daemon's answer is stored, before the broadcast of the groups, and before that of the update.
-- An event that is handled stands in the phase until its update.
pub data Phase : Type 0 where
  connecting : Phase
  selecting : Phase
  refreshing : Option DockerMessage → Phase
  awaiting : Option DockerMessage → Phase
  sending : List ContainerGroup → Option DockerMessage → Phase
  updating : DockerMessage → Phase
  returned : Phase
  dead : Phase

-- What follows `broadcastContainerList`.
abbrev pub after_listing : Option DockerMessage → Phase
after_listing none = selecting
after_listing (some m) = updating m

module _ (s : Site) where
  -- From the listed groups on: a template that fails is only logged.
  unfoldable pub broadcast_groups : Hub → List ContainerGroup → Result Hub
  broadcast_groups h groups =
      let (chunks, fine) =
        s.partials (bytes "container_list") (page_data (record no_data { groups = some groups })) in
      if fine then hub_broadcast (bytes "containers") (concat chunks) h else ok h

  -- `broadcastContainerList`, when nothing else works on the cache and the broker meanwhile: an
  -- error is only logged.
  unfoldable pub broadcast_container_list : Hub → ListInput → Result Hub
  unfolding broadcast_groups
  broadcast_container_list h i =
      let (groups, after) = list_grouped s.runtime s.unicode h.cache i in
      let next = record h { cache = after } in
      and_then groups (broadcast_groups next) (λ e. ok next)

  -- The last part of `handleDockerEvent`.
  unfoldable pub targeted_update : DockerMessage → Hub → Result Hub
  unfolding update_text
  targeted_update m h =
      if not (str_eq m.actor_id [])
      then hub_broadcast (bytes "container-update") (update_text m) h
      else ok h

  -- `handleDockerEvent`, when nothing else works on the cache and the broker meanwhile.
  unfoldable pub handle_docker_event : DockerMessage → Hub → ListInput → Result Hub
  unfolding broadcast_container_list targeted_update
  handle_docker_event m h i =
      and_then (broadcast_container_list (record h { cache = invalidate_cache h.cache }) i)
        (targeted_update m) err

  -- A broadcast, and the phase that follows it.
  abbrev pub after_call : Phase → Hub → Result Hub → Phase × Hub
  after_call next h (ok d) = (next, d)
  after_call next h (err e) = (dead, h)
  after_call next h panic = (dead, h)

  -- From the result of `List` on.
  abbrev pub on_listed : Option DockerMessage → Hub → Result (List Container) → Phase × Hub
  on_listed o h (ok cs) = (sending (group_containers s.runtime cs) o, h)
  on_listed o h (err e) = (after_listing o, h)
  on_listed o h panic = (dead, h)

  -- From the `Get` of `List` on.
  abbrev pub on_get : Option DockerMessage → Hub → Option Cached → Phase × Hub
  on_get o h (some v) = on_listed o h (as_containers v)
  on_get o h none = (awaiting o, h)

  -- The next part of a call.
  unfoldable pub go_on : Phase → Hub → ListInput → Phase × Hub
  unfolding broadcast_groups targeted_update
  go_on (refreshing o) h i = on_get o h (get h.cache i.asked containers_key)
  go_on (awaiting o) h i =
      let (containers, after) = finish_list s.unicode h.cache i in
      on_listed o (record h { cache = after }) containers
  go_on (sending groups o) h i = after_call (after_listing o) h (broadcast_groups h groups)
  go_on (updating m) h i = after_call selecting h (targeted_update m h)
  go_on connecting h i = (connecting, h)
  go_on selecting h i = (selecting, h)
  go_on returned h i = (returned, h)
  go_on dead h i = (dead, h)

  -- One turn of `watchDockerEvents`, for `StatsIntervalMs`. `time.NewTicker` panics on an interval
  -- that is not positive. The inner function returns at the stop and at the end of the stream; the
  -- pause of two seconds follows, and then the check. A message and a tick begin a call, the first
  -- with `InvalidateCache`.
  unfoldable pub watch_step : ℤ → Phase × Hub → Signal → Phase × Hub
  unfolding go_on
  watch_step ms (connecting, h) checks =
      if h.broker.stopped
      then (returned, h)
      else if ltb_ℤ (pos 0) (interval ms)
      then (selecting, h)
      else (dead, h)
  watch_step ms (selecting, h) stop_seen =
      if h.broker.stopped then (connecting, h) else (selecting, h)
  watch_step ms (selecting, h) (message m) =
      (refreshing (some m), record h { cache = invalidate_cache h.cache })
  watch_step ms (selecting, h) stream_failed = (connecting, h)
  watch_step ms (selecting, h) tick = (refreshing none, h)
  watch_step ms (phase, h) (goes_on i) = go_on phase h i
  watch_step ms (phase, h) _ = (phase, h)

-- A call that goes on to its end, if nothing else happens meanwhile.
abbrev pub to_end : ListInput → List Signal
to_end i = goes_on i ∷ goes_on i ∷ goes_on i ∷ goes_on i ∷ []
