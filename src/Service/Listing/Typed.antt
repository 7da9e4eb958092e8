-- ===== src/Service/Listing/Typed.antt =====
-- The keys that the services use in the cache, and the kinds of values that fit them.
use mathlib.Core.Option.{none-ne-some, some-injective}
use mathlib.Core.Path.{subst₂}
use wingstation.Prelude.{
  Str, str_eq, str_eq_iff, List, [], ◌∷◌, Option, none, some, ◌≡◌, refl, sym, ◌∙◌, ap,
  if◌then◌else◌, All, All-filter, arith, Bool-cases, inl, inr, subst,
}
use wingstation.Prelude.Int.{ℤ}
use wingstation.Go.Map.{lookup, insert}
use wingstation.Go.Result.{Result, ok, err, panic}
use wingstation.Cache.{Cache, Entry, get, set, live_value, sweep}
use wingstation.Service.Listing.{
  Cached, containers_value, detail_value, host_value, containers_key, inspect_key, store,
}
use wingstation.Service.Host.{host_key}
use wingstation.Service.Listing.Visible.{IsVisible}

-- The value may stand under the key.
abbrev pub Fits : Str → Cached → Type 0
Fits k (containers_value cs) = (k ≡ containers_key) × All IsVisible cs
Fits k (detail_value d) = (id : Str) × (k ≡ inspect_key id)
Fits k (host_value h) = k ≡ host_key

abbrev FitsEntry : Str × Entry Cached → Type 0
FitsEntry (k, e) = Fits k e.value

abbrev pub IsTyped : Cache Cached → Type 0
IsTyped c = All FitsEntry c.items

lookup-Fits :
    (k : Str) (m : List (Str × Entry Cached)) (e : Entry Cached)
    → All FitsEntry m
    → lookup k m ≡ some e
    → Fits k e.value
unfolding lookup
lookup-Fits k [] e t h = absurd (none-ne-some e h)
lookup-Fits k ((j, w) ∷ m) e (f, t) h = elim (Bool-cases (str_eq j k)) [
  | inl same ↦
      let found = some-injective w e (rw⁻¹ (ap (λ b. if b then some w else lookup k m) same) h) in
      subst₂ (λ i x. Fits i x.value) ((str_eq_iff j k).0 same) found f
  | inr other ↦ lookup-Fits k m e t (sym (ap (λ b. if b then some w else lookup k m) other) ∙ h)
]

insert-Fits :
    (k : Str) (m : List (Str × Entry Cached)) (e : Entry Cached)
    → All FitsEntry m
    → Fits k e.value
    → All FitsEntry (insert k e m)
unfolding insert
insert-Fits k [] e t f = (f, tt)
insert-Fits k ((j, w) ∷ m) e (g, t) f = elim (Bool-cases (str_eq j k)) [
  | inl same ↦ rw same (subst (λ i. Fits i e.value) (sym ((str_eq_iff j k).0 same)) f, t)
  | inr other ↦ rw other (g, insert-Fits k m e t f)
]

-- What is read was stored.
live_value-found :
    (now : ℤ) (o : Option (Entry Cached)) (v : Cached)
    → live_value now o ≡ some v
    → (e : Entry Cached) × (o ≡ some e) × (e.value ≡ v)
live_value-found now none v h = cc
live_value-found now (some e) v h = (e, refl, ground arith)

pub get-Fits :
    (c : Cache Cached) (now : ℤ) (k : Str) (v : Cached)
    → IsTyped c
    → get c now k ≡ some v
    → Fits k v
unfolding get
get-Fits c now k v t h =
    let (e, found, same) = live_value-found now (lookup k c.items) v h in
    subst (Fits k) same (lookup-Fits k c.items e t found)

pub set-IsTyped :
    (c : Cache Cached) (now : ℤ) (k : Str) (v : Cached)
    → IsTyped c
    → Fits k v
    → IsTyped (set c now k v)
unfolding set
set-IsTyped c now k v t f = insert-Fits k c.items _ t f

pub sweep-IsTyped : (c : Cache Cached) (now : ℤ) → IsTyped c → IsTyped (sweep now c)
unfolding sweep
sweep-IsTyped c now t = All-filter FitsEntry _ c.items t

pub store-IsTyped :
    {A : Type 0} (c : Cache Cached) (now : ℤ) (k : Str) (wrap : A → Cached) (r : Result A)
    → IsTyped c
    → ((a : A) → r ≡ ok a → Fits k (wrap a))
    → IsTyped (store c now k wrap r).1
unfolding store
store-IsTyped c now k wrap (ok a) t f = set-IsTyped c now k (wrap a) t (f a refl)
store-IsTyped c now k wrap (err e) t f = t
store-IsTyped c now k wrap panic t f = t
