-- ===== src/Tests/Cache.antt =====
-- The cache at concrete histories.
use wingstation.Prelude.{bytes, str_eq, List, [], ◌∷◌, ◌≡◌, refl, arith, ℕ, false}
use wingstation.Prelude.Int.{ℤ, pos}
use wingstation.Go.Map.{lookup}
use wingstation.Cache.{Cache, Entry, get, cleanup, tick, closed}
use wingstation.Cache.History.{
  Stamped, set_call, invalidate_call, tick_call, run, fresh, last_write, get-run,
}
use wingstation.Cache.Sweep.{get-cleanup}

-- Two keys are written, one is invalidated, the goroutine sweeps.
abbrev history : List (Stamped ℕ)
history =
    (pos 30, tick_call)
    ∷ (pos 20, invalidate_call (bytes "b"))
    ∷ (pos 10, set_call (bytes "b") 2)
    ∷ (pos 10, set_call (bytes "a") 1)
    ∷ []

get-run_example :
    get (run (pos 50) history) (pos 60) (bytes "a")
    ≡ fresh (pos 50) (pos 60) (last_write (bytes "a") history)
get-run_example =
    get-run (pos 50) history (pos 60) (bytes "a")
      (omega arith, (omega arith, (omega arith, (omega arith, tt))))

abbrev entry : ℕ → ℤ → Entry ℕ
entry v expires = record { value = v; expires_at = expires }

abbrev held : Cache ℕ
held = record {
  items = (bytes "a", entry 1 (pos 40)) ∷ (bytes "b", entry 2 (pos 90)) ∷ [];
  ttl = pos 50;
  stopped = false;
}

get-cleanup_example :
    get (cleanup (tick (pos 45) ∷ closed ∷ []) held) (pos 50) (bytes "b")
    ≡ get held (pos 50) (bytes "b")
unfolding lookup str_eq
get-cleanup_example =
    get-cleanup (tick (pos 45) ∷ closed ∷ []) held (pos 50) (bytes "b") (refl, (refl, tt))
      (omega arith, tt)
