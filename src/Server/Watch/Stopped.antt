-- ===== src/Server/Watch/Stopped.antt =====
-- The goroutine of the Docker events (internal/server/sse.go) neither stops the broker nor starts
-- it anew.
use wingstation.Prelude.{
  Str, bytes, Bool, true, false, List, Option, none, some, ◌≡◌, refl, sym, ap, ◌∙◌, if◌then◌else◌,
}
use wingstation.Prelude.Int.{ℤ, pos, ltb_ℤ}
use wingstation.Go.Result.{Result, ok, err, panic, and_then-ok, ok-injective}
use wingstation.Docker.Models.{Container, ContainerGroup}
use wingstation.Service.Listing.{Cached, ListInput, containers_key, as_containers, finish_list}
use wingstation.Cache.{get}
use wingstation.Server.Broker.{broadcast}
use wingstation.Server.Broker.Late.{broadcast-stopped}
use wingstation.Server.Site.{Site}
use wingstation.Server.Watch.{
  Hub, DockerMessage, hub_broadcast, broadcast_groups, targeted_update, interval, Signal, checks,
  stop_seen, message, stream_failed, tick, goes_on, Phase, connecting, selecting, refreshing,
  awaiting, sending, updating, returned, dead, after_call, after_listing, on_get, on_listed, go_on,
  watch_step,
}

-- Where the call comes back, the broker is stopped if it was.
abbrev Keeps : Hub → Result Hub → Type 0
Keeps h r = (d : Hub) → r ≡ ok d → d.broker.stopped ≡ h.broker.stopped

ok-Keeps : (h k : Hub) → k.broker.stopped ≡ h.broker.stopped → Keeps h (ok k)
ok-Keeps h k e d g = ap (λ x. x.broker.stopped) (sym (ok-injective k d g)) ∙ e

hub_broadcast-Keeps : (name payload : Str) (h : Hub) → Keeps h (hub_broadcast name payload h)
hub_broadcast-Keeps name payload h d g =
    let (b, e, k) = and_then-ok (broadcast name payload h.broker) _ (λ e. e) d g in
    ok-Keeps h (record h { broker = b }) (broadcast-stopped name payload h.broker b e) d k

either-Keeps : (b : Bool) (r : Result Hub) (h : Hub) → Keeps h r → Keeps h (if b then r else ok h)
either-Keeps true r h k = k
either-Keeps false r h k = ok-Keeps h h refl

module _ (s : Site) where
  broadcast_groups-Keeps :
      (h : Hub) (groups : List ContainerGroup) → Keeps h (broadcast_groups s h groups)
  unfolding broadcast_groups
  broadcast_groups-Keeps h groups =
      either-Keeps _ _ h (hub_broadcast-Keeps (bytes "containers") _ h)

  targeted_update-Keeps : (m : DockerMessage) (h : Hub) → Keeps h (targeted_update s m h)
  unfolding targeted_update
  targeted_update-Keeps m h =
      either-Keeps _ _ h (hub_broadcast-Keeps (bytes "container-update") _ h)

  after_call-stopped :
      (next : Phase) (h : Hub) (r : Result Hub)
      → Keeps h r
      → (after_call s next h r).1.broker.stopped ≡ h.broker.stopped
  after_call-stopped next h (ok d) k = k d refl
  after_call-stopped next h (err e) k = refl
  after_call-stopped next h panic k = refl

  on_listed-stopped :
      (o : Option DockerMessage) (h : Hub) (r : Result (List Container))
      → (on_listed s o h r).1.broker.stopped ≡ h.broker.stopped
  on_listed-stopped o h (ok cs) = refl
  on_listed-stopped o h (err e) = refl
  on_listed-stopped o h panic = refl

  on_get-stopped :
      (o : Option DockerMessage) (h : Hub) (v : Option Cached)
      → (on_get s o h v).1.broker.stopped ≡ h.broker.stopped
  on_get-stopped o h none = refl
  on_get-stopped o h (some v) = on_listed-stopped o h (as_containers v)

  go_on-stopped :
      (p : Phase) (h : Hub) (i : ListInput) → (go_on s p h i).1.broker.stopped ≡ h.broker.stopped
  unfolding go_on
  go_on-stopped connecting h i = refl
  go_on-stopped selecting h i = refl
  go_on-stopped (refreshing o) h i = on_get-stopped o h (get h.cache i.asked containers_key)
  go_on-stopped (awaiting o) h i =
      let after = finish_list s.unicode h.cache i in
      on_listed-stopped o (record h { cache = after.1 }) after.0
  go_on-stopped (sending groups o) h i =
      after_call-stopped (after_listing o) h _ (broadcast_groups-Keeps h groups)
  go_on-stopped (updating m) h i = after_call-stopped selecting h _ (targeted_update-Keeps m h)
  go_on-stopped returned h i = refl
  go_on-stopped dead h i = refl

  same_hub :
      (b : Bool) (x y : Phase × Hub) (h : Hub) → x.1 ≡ h → y.1 ≡ h → (if b then x else y).1 ≡ h
  same_hub true x y h e f = e
  same_hub false x y h e f = f

  -- A turn of the goroutine leaves the broker stopped, or not stopped, as it was.
  pub watch_step-stopped :
      (ms : ℤ) (p : Phase) (h : Hub) (signal : Signal)
      → (watch_step s ms (p, h) signal).1.broker.stopped ≡ h.broker.stopped
  unfolding watch_step
  watch_step-stopped ms connecting h checks =
      ap (λ x. x.broker.stopped)
        (same_hub h.broker.stopped _ _ h refl
          (same_hub (ltb_ℤ (pos 0) (interval ms)) (selecting, h) (dead, h) h refl refl))
  watch_step-stopped ms connecting h stop_seen = refl
  watch_step-stopped ms connecting h (message n) = refl
  watch_step-stopped ms connecting h stream_failed = refl
  watch_step-stopped ms connecting h tick = refl
  watch_step-stopped ms connecting h (goes_on i) = go_on-stopped connecting h i
  watch_step-stopped ms selecting h checks = refl
  watch_step-stopped ms selecting h stop_seen =
      ap (λ x. x.broker.stopped)
        (same_hub h.broker.stopped (connecting, h) (selecting, h) h refl refl)
  watch_step-stopped ms selecting h (message n) = refl
  watch_step-stopped ms selecting h stream_failed = refl
  watch_step-stopped ms selecting h tick = refl
  watch_step-stopped ms selecting h (goes_on i) = go_on-stopped selecting h i
  watch_step-stopped ms (refreshing o) h checks = refl
  watch_step-stopped ms (refreshing o) h stop_seen = refl
  watch_step-stopped ms (refreshing o) h (message n) = refl
  watch_step-stopped ms (refreshing o) h stream_failed = refl
  watch_step-stopped ms (refreshing o) h tick = refl
  watch_step-stopped ms (refreshing o) h (goes_on i) = go_on-stopped (refreshing o) h i
  watch_step-stopped ms (awaiting o) h checks = refl
  watch_step-stopped ms (awaiting o) h stop_seen = refl
  watch_step-stopped ms (awaiting o) h (message n) = refl
  watch_step-stopped ms (awaiting o) h stream_failed = refl
  watch_step-stopped ms (awaiting o) h tick = refl
  watch_step-stopped ms (awaiting o) h (goes_on i) = go_on-stopped (awaiting o) h i
  watch_step-stopped ms (sending groups o) h checks = refl
  watch_step-stopped ms (sending groups o) h stop_seen = refl
  watch_step-stopped ms (sending groups o) h (message n) = refl
  watch_step-stopped ms (sending groups o) h stream_failed = refl
  watch_step-stopped ms (sending groups o) h tick = refl
  watch_step-stopped ms (sending groups o) h (goes_on i) = go_on-stopped (sending groups o) h i
  watch_step-stopped ms (updating m) h checks = refl
  watch_step-stopped ms (updating m) h stop_seen = refl
  watch_step-stopped ms (updating m) h (message n) = refl
  watch_step-stopped ms (updating m) h stream_failed = refl
  watch_step-stopped ms (updating m) h tick = refl
  watch_step-stopped ms (updating m) h (goes_on i) = go_on-stopped (updating m) h i
  watch_step-stopped ms returned h checks = refl
  watch_step-stopped ms returned h stop_seen = refl
  watch_step-stopped ms returned h (message n) = refl
  watch_step-stopped ms returned h stream_failed = refl
  watch_step-stopped ms returned h tick = refl
  watch_step-stopped ms returned h (goes_on i) = go_on-stopped returned h i
  watch_step-stopped ms dead h checks = refl
  watch_step-stopped ms dead h stop_seen = refl
  watch_step-stopped ms dead h (message n) = refl
  watch_step-stopped ms dead h stream_failed = refl
  watch_step-stopped ms dead h tick = refl
  watch_step-stopped ms dead h (goes_on i) = go_on-stopped dead h i
