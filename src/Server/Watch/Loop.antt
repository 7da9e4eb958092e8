-- ===== src/Server/Watch/Loop.antt =====
-- How the goroutine of the Docker events ends.
use mathlib.Core.List.{foldl}
use wingstation.Prelude.{Bool, true, List, [], ◌∷◌, ◌≡◌, ◌≢◌, refl, ap, ◌∙◌, if◌then◌else◌}
use wingstation.Prelude.Int.{ℤ, pos, ltb_ℤ}
use wingstation.Server.Site.{Site}
use wingstation.Service.Listing.{ListInput}
use wingstation.Server.Watch.Stopped.{watch_step-stopped}
use wingstation.Server.Watch.Whole.{IsBetween, to_end-IsBetween}
use wingstation.Server.Watch.{
  Hub, interval, Signal, checks, stop_seen, message, stream_failed, tick, goes_on, Phase,
  connecting, selecting, refreshing, awaiting, sending, updating, returned, dead, go_on, watch_step,
  to_end,
}

module _ (s : Site) (ms : ℤ) where
  -- From the check of `stopCh` on, nothing but the return follows.
  returned_stays :
      (h : Hub) (signals : List Signal)
      → foldl (watch_step s ms) (returned, h) signals ≡ (returned, h)
  unfolding watch_step go_on
  returned_stays h [] = refl
  returned_stays h (checks ∷ signals) = returned_stays h signals
  returned_stays h (stop_seen ∷ signals) = returned_stays h signals
  returned_stays h (message m ∷ signals) = returned_stays h signals
  returned_stays h (stream_failed ∷ signals) = returned_stays h signals
  returned_stays h (tick ∷ signals) = returned_stays h signals
  returned_stays h (goes_on i ∷ signals) = returned_stays h signals

  -- What the check of a goroutine comes to.
  checked : Bool → Hub → Phase × Hub
  checked stopped h =
      if stopped
      then (returned, h)
      else if ltb_ℤ (pos 0) (interval ms)
      then (selecting, h)
      else (dead, h)

  checks_return :
      (h : Hub) (signals : List Signal)
      → h.broker.stopped ≡ true
      → foldl (watch_step s ms) (connecting, h) (checks ∷ signals) ≡ (returned, h)
  unfolding watch_step checked
  checks_return h signals stopped =
      ap (λ b. foldl (watch_step s ms) (checked b h) signals) stopped ∙ returned_stays h signals

  between_returns :
      (p : Phase) (h : Hub) (signals : List Signal)
      → IsBetween p
      → p ≢ dead
      → h.broker.stopped ≡ true
      → foldl (watch_step s ms) (p, h) (stop_seen ∷ checks ∷ signals) ≡ (returned, h)
  unfolding watch_step
  between_returns connecting h signals b n stopped = checks_return h signals stopped
  between_returns selecting h signals b n stopped =
      ap
        (λ b.
          foldl (watch_step s ms) (if b then (connecting, h) else (selecting, h))
            (checks ∷ signals))
        stopped
      ∙ checks_return h signals stopped
  between_returns (refreshing o) h signals b n stopped = absurd b
  between_returns (awaiting o) h signals b n stopped = absurd b
  between_returns (sending groups o) h signals b n stopped = absurd b
  between_returns (updating m) h signals b n stopped = absurd b
  between_returns returned h signals b n stopped = returned_stays h (stop_seen ∷ checks ∷ signals)
  between_returns dead h signals b n stopped = absurd (n refl)

  -- The goroutine at the end of the call that it is in, if it is in one.
  abbrev pub at_end : Phase × Hub → ListInput → Phase × Hub
  at_end x i = foldl (watch_step s ms) x (to_end i)

  at_end-stopped :
      (x : Phase × Hub) (signals : List Signal)
      → (foldl (watch_step s ms) x signals).1.broker.stopped ≡ x.1.broker.stopped
  at_end-stopped x [] = refl
  at_end-stopped (p, h) (signal ∷ signals) =
      at_end-stopped (watch_step s ms (p, h) signal) signals ∙ watch_step-stopped s ms p h signal

  -- Once the broker is stopped, the goroutine returns, whether it is in the inner loop, before its
  -- check or in a call: when it has come to the end of the call, unless that panics, its `select`
  -- has seen the stop and the check follows, it is done, and does nothing more, whatever comes.
  pub watch_step-returned :
      (p : Phase) (h : Hub) (i : ListInput) (signals : List Signal)
      → (at_end (p, h) i).0 ≢ dead
      → h.broker.stopped ≡ true
      → foldl (watch_step s ms) (at_end (p, h) i) (stop_seen ∷ checks ∷ signals)
        ≡ (returned, (at_end (p, h) i).1)
  watch_step-returned p h i signals n stopped =
      between_returns (at_end (p, h) i).0 (at_end (p, h) i).1 signals
        (to_end-IsBetween s ms (p, h) i) n (at_end-stopped (p, h) (to_end i) ∙ stopped)

  -- Outside of a call nothing goes on.
  between-at_end : (p : Phase) (h : Hub) (i : ListInput) → IsBetween p → at_end (p, h) i ≡ (p, h)
  unfolding watch_step go_on
  between-at_end connecting h i b = refl
  between-at_end selecting h i b = refl
  between-at_end (refreshing o) h i b = absurd b
  between-at_end (awaiting o) h i b = absurd b
  between-at_end (sending groups o) h i b = absurd b
  between-at_end (updating m) h i b = absurd b
  between-at_end returned h i b = refl
  between-at_end dead h i b = refl
