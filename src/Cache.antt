-- ===== src/Cache.antt =====
-- internal/cache/cache.go: the cache with a time to live. Each method holds the mutex from its
-- first to its last access, so that it is one step on the state; a run of the program is a
-- sequence of such steps, with the clock readings that they make.
pub mod Sweep
pub mod History
use wingstation.Prelude.{
  Str, Bool, true, false, not, List, [], ◌∷◌, Option, none, some, if◌then◌else◌, filter,
}
use wingstation.Prelude.Int.{ℤ, ltb_ℤ, ◌+ℤ◌}
use wingstation.Go.Map.{lookup, insert, delete}

-- `now.After(t)`, in nanoseconds
abbrev pub after : ℤ → ℤ → Bool
after now t = ltb_ℤ t now

pub record Entry (V : Type 0) : Type 0 where
  pub value : V
  pub expires_at : ℤ

-- `stopped` says whether the channel of that name is closed.
pub record Cache (V : Type 0) : Type 0 where
  pub items : List (Str × Entry V)
  pub ttl : ℤ
  pub stopped : Bool

-- What wakes the cleanup goroutine: the ticker, with the clock reading that follows, or the
-- closed channel.
pub data Wake : Type 0 where
  tick : ℤ → Wake
  closed : Wake

module _ {V : Type 0} where
  unfoldable pub new : ℤ → Cache V
  new ttl = record { items = []; ttl = ttl; stopped = false }

  -- What a read makes of an entry.
  abbrev pub live_value : ℤ → Option (Entry V) → Option V
  live_value now none = none
  live_value now (some e) = if after now e.expires_at then none else some e.value

  unfoldable pub get : Cache V → ℤ → Str → Option V
  get c now key = live_value now (lookup key c.items)

  unfoldable pub set : Cache V → ℤ → Str → V → Cache V
  set c now key value = record c {
    items = insert key (record { value = value; expires_at = now +ℤ c.ttl }) c.items;
  }

  unfoldable pub invalidate : Cache V → Str → Cache V
  invalidate c key = record c { items = delete key c.items }

  unfoldable pub invalidate_all : Cache V → Cache V
  invalidate_all c = record c { items = [] }

  -- `none` is the panic of closing a closed channel.
  unfoldable pub stop : Cache V → Option (Cache V)
  stop c = if c.stopped then none else some (record c { stopped = true })

  abbrev pub is_live : ℤ → Str × Entry V → Bool
  is_live now (k, e) = not (after now e.expires_at)

  -- One round of the cleanup loop, under the mutex.
  unfoldable pub sweep : ℤ → Cache V → Cache V
  sweep now c = record c { items = filter (is_live now) c.items }

  -- The cleanup goroutine, over what wakes it: it returns at the closed channel.
  unfoldable pub cleanup : List Wake → Cache V → Cache V
  unfolding sweep
  cleanup [] c = c
  cleanup (tick now ∷ wakes) c = cleanup wakes (sweep now c)
  cleanup (closed ∷ wakes) c = c
