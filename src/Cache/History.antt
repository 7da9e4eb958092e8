-- ===== src/Cache/History.antt =====
-- The cache (internal/cache/cache.go) against the history of its calls: the state after a
-- history, and what a read ought to find.
use wingstation.Prelude.{
  Str, str_eq, List, [], ◌∷◌, Option, none, some, ◌≡◌, refl, sym, ◌∙◌, if◌then◌else◌, if_both,
  arith,
}
use wingstation.Prelude.Int.{ℤ, ◌≤ℤ◌, ◌+ℤ◌}
use wingstation.Go.Map.{lookup, HasDistinctKeys}
use wingstation.Go.Map.Laws.{
  lookup-insert, lookup-delete, HasDistinctKeys-insert, HasDistinctKeys-delete,
}
use wingstation.Cache.{after, Cache, new, live_value, get, set, invalidate, invalidate_all, sweep}
use wingstation.Cache.Sweep.{get-sweep, sweep-HasDistinctKeys}

-- A change of the cache, by a method or by the cleanup goroutine.
pub data Call (V : Type 0) : Type 0 where
  set_call : Str → V → Call V
  invalidate_call : Str → Call V
  invalidate_all_call : Call V
  tick_call : Call V

-- The clock reading of a call, and the call.
abbrev pub Stamped : Type 0 → Type 0
Stamped V = ℤ × Call V

module _ {V : Type 0} where
  unfoldable pub apply : Cache V → Stamped V → Cache V
  apply c (now, set_call k v) = set c now k v
  apply c (now, invalidate_call k) = invalidate c k
  apply c (now, invalidate_all_call) = invalidate_all c
  apply c (now, tick_call) = sweep now c

  -- The history has its last call at the head.
  unfoldable pub run : ℤ → List (Stamped V) → Cache V
  unfolding apply
  run ttl [] = new ttl
  run ttl (e ∷ history) = apply (run ttl history) e

  -- The last write of a key that was not invalidated since, with its clock reading.
  unfoldable pub last_write : Str → List (Stamped V) → Option (ℤ × V)
  last_write k [] = none
  last_write k ((now, set_call j v) ∷ h) = if str_eq j k then some (now, v) else last_write k h
  last_write k ((now, invalidate_call j) ∷ h) = if str_eq j k then none else last_write k h
  last_write k ((now, invalidate_all_call) ∷ h) = none
  last_write k ((now, tick_call) ∷ h) = last_write k h

  -- What a read ought to find: the last write, unless its time to live is over.
  abbrev pub fresh : ℤ → ℤ → Option (ℤ × V) → Option V
  fresh ttl now none = none
  fresh ttl now (some (written, v)) = if after now (written +ℤ ttl) then none else some v

  -- The clock does not go back, up to the reading `now`.
  abbrev pub IsOrdered : ℤ → List (Stamped V) → Type 0
  IsOrdered now [] = Unit
  IsOrdered now (e ∷ h) = (e.0 ≤ℤ now) × IsOrdered e.0 h

  -- No run makes two entries of one key.
  pub run-HasDistinctKeys : (ttl : ℤ) (h : List (Stamped V)) → HasDistinctKeys (run ttl h).items
  unfolding run new set invalidate invalidate_all
  run-HasDistinctKeys ttl [] = tt
  run-HasDistinctKeys ttl ((now, set_call k v) ∷ h) =
      HasDistinctKeys-insert k _ (run ttl h).items (run-HasDistinctKeys ttl h)
  run-HasDistinctKeys ttl ((now, invalidate_call k) ∷ h) =
      HasDistinctKeys-delete k (run ttl h).items (run-HasDistinctKeys ttl h)
  run-HasDistinctKeys ttl ((now, invalidate_all_call) ∷ h) = tt
  run-HasDistinctKeys ttl ((now, tick_call) ∷ h) =
      sweep-HasDistinctKeys (run ttl h) now (run-HasDistinctKeys ttl h)

  run-ttl : (ttl : ℤ) (h : List (Stamped V)) → (run ttl h).ttl ≡ ttl
  unfolding run new set invalidate invalidate_all sweep
  run-ttl ttl [] = refl
  run-ttl ttl ((now, set_call k v) ∷ h) = run-ttl ttl h
  run-ttl ttl ((now, invalidate_call k) ∷ h) = run-ttl ttl h
  run-ttl ttl ((now, invalidate_all_call) ∷ h) = run-ttl ttl h
  run-ttl ttl ((now, tick_call) ∷ h) = run-ttl ttl h

  IsOrdered-later :
      (h : List (Stamped V)) (now later : ℤ) → now ≤ℤ later → IsOrdered now h → IsOrdered later h
  IsOrdered-later [] now later l o = tt
  IsOrdered-later (e ∷ h) now later l (p, o) = (omega arith, o)

  pub get-set :
      (c : Cache V) (now later : ℤ) (k j : Str) (v : V)
      → get (set c now k v) later j
        ≡ (if str_eq k j then fresh c.ttl later (some (now, v)) else get c later j)
  unfolding get set
  get-set c now later k j v =
      rw (lookup-insert k j _ c.items) (sym (if_both (str_eq k j) (live_value later) refl refl))

  get-invalidate :
      (c : Cache V) (now : ℤ) (k j : Str)
      → get (invalidate c k) now j ≡ (if str_eq k j then none else get c now j)
  unfolding get invalidate
  get-invalidate c now k j =
      rw (lookup-delete k j c.items) (sym (if_both (str_eq k j) (live_value now) refl refl))

  -- If the clock does not go back, a read at or after the last call of a history finds the last
  -- write of its key that was not invalidated since, if its time to live is not over, and nothing
  -- otherwise.
  pub get-run :
      (ttl : ℤ) (h : List (Stamped V)) (now : ℤ) (k : Str)
      → IsOrdered now h
      → get (run ttl h) now k ≡ fresh ttl now (last_write k h)
  unfolding run last_write
  get-run ttl [] now k o = unfold get new lookup in refl
  get-run ttl ((t, set_call j v) ∷ h) now k (p, o) =
      get-set (run ttl h) t now j k v
      ∙ if_both (str_eq j k) (fresh ttl now) (rw (run-ttl ttl h))
          (get-run ttl h now k (IsOrdered-later h t now p o))
  get-run ttl ((t, invalidate_call j) ∷ h) now k (p, o) =
      get-invalidate (run ttl h) now j k
      ∙ if_both (str_eq j k) (fresh ttl now) refl
          (get-run ttl h now k (IsOrdered-later h t now p o))
  get-run ttl ((t, invalidate_all_call) ∷ h) now k (p, o) = unfold get invalidate_all lookup in refl
  get-run ttl ((t, tick_call) ∷ h) now k (p, o) =
      get-sweep (run ttl h) t now k (run-HasDistinctKeys ttl h) p
      ∙ get-run ttl h now k (IsOrdered-later h t now p o)
