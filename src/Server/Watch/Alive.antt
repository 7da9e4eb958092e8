-- ===== src/Server/Watch/Alive.antt =====
-- The goroutine of the Docker events (internal/server/sse.go) while the broker is not stopped.
use wingstation.Prelude.{
  Bool, true, false, List, ◌∷◌, Option, none, some, ◌≡◌, ◌≢◌, refl, ◌∙◌, ap, if◌then◌else◌,
}
use wingstation.Prelude.Int.{ℤ, pos, ltb_ℤ}
use wingstation.Go.Result.{Result, ok, err, panic}
use wingstation.Service.Listing.{Cached, ListInput, containers_key, as_containers, finish_list}
use wingstation.Cache.{get}
use wingstation.Docker.Models.{Container}
use mathlib.Core.List.{foldl}
use wingstation.Server.Watch.Whole.{IsBetween, message-to_end}
use wingstation.Server.Site.{Site}
use wingstation.Server.Watch.{
  Hub, DockerMessage, handle_docker_event, broadcast_groups, targeted_update, interval, Signal,
  checks, stop_seen, message, stream_failed, tick, goes_on, Phase, connecting, selecting,
  refreshing, awaiting, sending, updating, returned, dead, after_call, after_listing, on_get,
  on_listed, go_on, watch_step, to_end,
}

module _ (s : Site) where
  after_call-not_returned :
      (next : Phase) (h : Hub) (r : Result Hub)
      → next ≢ returned
      → (after_call s next h r).0 ≢ returned
  after_call-not_returned next h (ok d) n = n
  after_call-not_returned next h (err x) n = λ e. cc
  after_call-not_returned next h panic n = λ e. cc

  after_listing-not_returned : (o : Option DockerMessage) → after_listing o ≢ returned
  after_listing-not_returned none = λ e. cc
  after_listing-not_returned (some m) = λ e. cc

  on_listed-not_returned :
      (o : Option DockerMessage) (h : Hub) (r : Result (List Container))
      → (on_listed s o h r).0 ≢ returned
  on_listed-not_returned o h (ok cs) = λ e. cc
  on_listed-not_returned o h (err x) = after_listing-not_returned o
  on_listed-not_returned o h panic = λ e. cc

  on_get-not_returned :
      (o : Option DockerMessage) (h : Hub) (v : Option Cached) → (on_get s o h v).0 ≢ returned
  on_get-not_returned o h none = λ e. cc
  on_get-not_returned o h (some v) = on_listed-not_returned o h (as_containers v)

  go_on-not_returned :
      (p : Phase) (h : Hub) (i : ListInput) → p ≢ returned → (go_on s p h i).0 ≢ returned
  unfolding go_on
  go_on-not_returned connecting h i n = n
  go_on-not_returned selecting h i n = n
  go_on-not_returned (refreshing o) h i n =
      on_get-not_returned o h (get h.cache i.asked containers_key)
  go_on-not_returned (awaiting o) h i n =
      let after = finish_list s.unicode h.cache i in
      on_listed-not_returned o (record h { cache = after.1 }) after.0
  go_on-not_returned (sending groups o) h i n =
      after_call-not_returned (after_listing o) h (broadcast_groups s h groups)
        (after_listing-not_returned o)
  go_on-not_returned (updating m) h i n =
      after_call-not_returned selecting h (targeted_update s m h) (λ e. cc)
  go_on-not_returned returned h i n = n
  go_on-not_returned dead h i n = n

  either_not :
      (b : Bool) (x y : Phase × Hub)
      → x.0 ≢ returned
      → y.0 ≢ returned
      → (if b then x else y).0 ≢ returned
  either_not true x y n m = n
  either_not false x y n m = m

  -- What a check comes to.
  abbrev met : Bool → Bool → Hub → Phase × Hub
  met stopped positive h =
      if stopped then (returned, h) else if positive then (selecting, h) else (dead, h)

  check_not :
      (stopped positive : Bool) (h : Hub) → stopped ≡ false → (met stopped positive h).0 ≢ returned
  check_not true positive h runs = cc
  check_not false true h runs = λ e. cc
  check_not false false h runs = λ e. cc

  check_connects :
      (stopped positive : Bool) (h : Hub)
      → stopped ≡ false
      → positive ≡ true
      → met stopped positive h ≡ (selecting, h)
  check_connects true positive h runs p = cc
  check_connects false true h runs p = refl
  check_connects false false h runs p = cc

  -- While the broker is not stopped, the goroutine does not return.
  pub watch_step-not_returned :
      (ms : ℤ) (p : Phase) (h : Hub) (signal : Signal)
      → h.broker.stopped ≡ false
      → p ≢ returned
      → (watch_step s ms (p, h) signal).0 ≢ returned
  unfolding watch_step
  watch_step-not_returned ms connecting h checks runs n =
      check_not h.broker.stopped (ltb_ℤ (pos 0) (interval ms)) h runs
  watch_step-not_returned ms connecting h stop_seen runs n = n
  watch_step-not_returned ms connecting h (message m) runs n = n
  watch_step-not_returned ms connecting h stream_failed runs n = n
  watch_step-not_returned ms connecting h tick runs n = n
  watch_step-not_returned ms connecting h (goes_on i) runs n = go_on-not_returned connecting h i n
  watch_step-not_returned ms selecting h checks runs n = n
  watch_step-not_returned ms selecting h stop_seen runs n =
      either_not h.broker.stopped (connecting, h) (selecting, h) (λ e. cc) n
  watch_step-not_returned ms selecting h (message m) runs n = λ e. cc
  watch_step-not_returned ms selecting h stream_failed runs n = λ e. cc
  watch_step-not_returned ms selecting h tick runs n = λ e. cc
  watch_step-not_returned ms selecting h (goes_on i) runs n = go_on-not_returned selecting h i n
  watch_step-not_returned ms (refreshing o) h checks runs n = n
  watch_step-not_returned ms (refreshing o) h stop_seen runs n = n
  watch_step-not_returned ms (refreshing o) h (message m) runs n = n
  watch_step-not_returned ms (refreshing o) h stream_failed runs n = n
  watch_step-not_returned ms (refreshing o) h tick runs n = n
  watch_step-not_returned ms (refreshing o) h (goes_on i) runs n =
      go_on-not_returned (refreshing o) h i n
  watch_step-not_returned ms (awaiting o) h checks runs n = n
  watch_step-not_returned ms (awaiting o) h stop_seen runs n = n
  watch_step-not_returned ms (awaiting o) h (message m) runs n = n
  watch_step-not_returned ms (awaiting o) h stream_failed runs n = n
  watch_step-not_returned ms (awaiting o) h tick runs n = n
  watch_step-not_returned ms (awaiting o) h (goes_on i) runs n =
      go_on-not_returned (awaiting o) h i n
  watch_step-not_returned ms (sending groups o) h checks runs n = n
  watch_step-not_returned ms (sending groups o) h stop_seen runs n = n
  watch_step-not_returned ms (sending groups o) h (message m) runs n = n
  watch_step-not_returned ms (sending groups o) h stream_failed runs n = n
  watch_step-not_returned ms (sending groups o) h tick runs n = n
  watch_step-not_returned ms (sending groups o) h (goes_on i) runs n =
      go_on-not_returned (sending groups o) h i n
  watch_step-not_returned ms (updating m) h checks runs n = n
  watch_step-not_returned ms (updating m) h stop_seen runs n = n
  watch_step-not_returned ms (updating k) h (message m) runs n = n
  watch_step-not_returned ms (updating m) h stream_failed runs n = n
  watch_step-not_returned ms (updating m) h tick runs n = n
  watch_step-not_returned ms (updating m) h (goes_on i) runs n =
      go_on-not_returned (updating m) h i n
  watch_step-not_returned ms returned h checks runs n = n
  watch_step-not_returned ms returned h stop_seen runs n = n
  watch_step-not_returned ms returned h (message m) runs n = n
  watch_step-not_returned ms returned h stream_failed runs n = n
  watch_step-not_returned ms returned h tick runs n = n
  watch_step-not_returned ms returned h (goes_on i) runs n = go_on-not_returned returned h i n
  watch_step-not_returned ms dead h checks runs n = n
  watch_step-not_returned ms dead h stop_seen runs n = n
  watch_step-not_returned ms dead h (message m) runs n = n
  watch_step-not_returned ms dead h stream_failed runs n = n
  watch_step-not_returned ms dead h tick runs n = n
  watch_step-not_returned ms dead h (goes_on i) runs n = go_on-not_returned dead h i n

  check_selects :
      (ms : ℤ) (p : Phase) (h : Hub)
      → h.broker.stopped ≡ false
      → ltb_ℤ (pos 0) (interval ms) ≡ true
      → IsBetween p
      → p ≢ returned
      → p ≢ dead
      → watch_step s ms (p, h) checks ≡ (selecting, h)
  unfolding watch_step
  check_selects ms connecting h runs positive settled n k =
      check_connects h.broker.stopped (ltb_ℤ (pos 0) (interval ms)) h runs positive
  check_selects ms selecting h runs positive settled n k = refl
  check_selects ms (refreshing o) h runs positive settled n k = absurd settled
  check_selects ms (awaiting o) h runs positive settled n k = absurd settled
  check_selects ms (sending groups o) h runs positive settled n k = absurd settled
  check_selects ms (updating x) h runs positive settled n k = absurd settled
  check_selects ms returned h runs positive settled n k = absurd (n refl)
  check_selects ms dead h runs positive settled n k = absurd (k refl)

  -- A goroutine that is in no call and has neither returned nor died handles the event after its
  -- next check.
  pub next_event :
      (ms : ℤ) (p : Phase) (h d : Hub) (m : DockerMessage) (i : ListInput)
      → h.broker.stopped ≡ false
      → ltb_ℤ (pos 0) (interval ms) ≡ true
      → IsBetween p
      → p ≢ returned
      → p ≢ dead
      → handle_docker_event s m h i ≡ ok d
      → (watch_step s ms (p, h) checks ≡ (selecting, h))
        × (foldl (watch_step s ms) (watch_step s ms (p, h) checks) (message m ∷ to_end i)
            ≡ (selecting, d))
  next_event ms p h d m i runs positive settled n k e =
      let ready = check_selects ms p h runs positive settled n k in
      (
        ready,
        ap (λ x. foldl (watch_step s ms) x (message m ∷ to_end i)) ready
            ∙ message-to_end s ms m h d i e,
      )
