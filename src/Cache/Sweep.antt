-- ===== src/Cache/Sweep.antt =====
-- What the cleanup goroutine does to the entries.
use wingstation.Prelude.{
  Str, false, List, [], ◌∷◌, Option, none, some, ◌≡◌, ◌↔◌, refl, ◌∙◌, if◌then◌else◌, arith,
}
use wingstation.Prelude.Int.{ℤ, ◌≤ℤ◌}
use wingstation.Go.Map.{lookup, HasDistinctKeys}
use wingstation.Go.Map.Laws.{lookup-filter, HasDistinctKeys-filter}
use wingstation.Cache.{
  after, Entry, Cache, Wake, tick, closed, live_value, get, is_live, sweep, cleanup,
}

-- The clock readings of the ticks, all at most `later`.
abbrev pub TicksBefore : ℤ → List Wake → Type 0
TicksBefore later [] = Unit
TicksBefore later (tick now ∷ wakes) = (now ≤ℤ later) × TicksBefore later wakes
TicksBefore later (closed ∷ wakes) = TicksBefore later wakes

module _ {V : Type 0} where
  -- What is expired stays expired.
  live_value-later :
      (now later : ℤ) (o : Option (Entry V)) (k : Str)
      → now ≤ℤ later
      → live_value later
          (elim o [ none ↦ none | some e ↦ (if is_live now (k, e) then some e else none) ])
        ≡ live_value later o
  live_value-later now later none k h = refl
  live_value-later now later (some e) k h = ground arith

  -- No read at or after a sweep can tell that it happened.
  pub get-sweep :
      (c : Cache V) (now later : ℤ) (k : Str)
      → HasDistinctKeys c.items
      → now ≤ℤ later
      → get (sweep now c) later k ≡ get c later k
  unfolding get sweep
  get-sweep c now later k d h =
      rw (lookup-filter (is_live now) k c.items d)
        (live_value-later now later (lookup k c.items) k h)

  pub sweep-HasDistinctKeys :
      (c : Cache V) (now : ℤ) → HasDistinctKeys c.items → HasDistinctKeys (sweep now c).items
  unfolding sweep
  sweep-HasDistinctKeys c now d = HasDistinctKeys-filter (is_live now) c.items d

  -- A read finds the same whatever the cleanup goroutine has done before it, if the keys are
  -- distinct and no tick of the goroutine is later than the read.
  pub get-cleanup :
      (wakes : List Wake) (c : Cache V) (later : ℤ) (k : Str)
      → HasDistinctKeys c.items
      → TicksBefore later wakes
      → get (cleanup wakes c) later k ≡ get c later k
  unfolding cleanup
  get-cleanup [] c later k d h = refl
  get-cleanup (tick now ∷ wakes) c later k d (h, hs) =
      get-cleanup wakes (sweep now c) later k (sweep-HasDistinctKeys c now d) hs
      ∙ get-sweep c now later k d h
  get-cleanup (closed ∷ wakes) c later k d h = refl

  is_live_found :
      (now : ℤ) (k : Str) (o : Option (Entry V)) (e : Entry V)
      → (elim o [ none ↦ none | some v ↦ (if is_live now (k, v) then some v else none) ]) ≡ some e
      → (o ≡ some e) × (after now e.expires_at ≡ false)
  is_live_found now k none e h = cc
  is_live_found now k (some v) e h = ground arith

  is_live_kept :
      (now : ℤ) (k : Str) (o : Option (Entry V)) (e : Entry V)
      → o ≡ some e
      → after now e.expires_at ≡ false
      → (elim o [ none ↦ none | some v ↦ (if is_live now (k, v) then some v else none) ]) ≡ some e
  is_live_kept now k none e h l = cc
  is_live_kept now k (some v) e h l = ground arith

  -- Where no key stands twice, a tick frees exactly the expired entries: what is held after it was
  -- held before and is not expired, and all such entries stay.
  pub sweep_iff :
      (c : Cache V) (now : ℤ) (k : Str) (e : Entry V)
      → HasDistinctKeys c.items
      → (lookup k (sweep now c).items ≡ some e)
        ↔ ((lookup k c.items ≡ some e) × (after now e.expires_at ≡ false))
  unfolding sweep
  sweep_iff c now k e d = rw (lookup-filter (is_live now) k c.items d) (
    is_live_found now k (lookup k c.items) e,
    λ (h, l). is_live_kept now k (lookup k c.items) e h l,
  )
