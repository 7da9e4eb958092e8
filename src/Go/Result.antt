-- ===== src/Go/Result.antt =====
-- How a Go call ends: with its value, with an error, by its text, or by a panic.
use wingstation.Prelude.{Str, ◌≡◌, ◌≢◌, refl}

pub data Result {ℓ} (A : Type ℓ) : Type ℓ where
  ok : A → Result A
  err : Str → Result A
  panic : Result A

-- A panic goes up; an error is handed to `handle`.
abbrev pub and_then {ℓ κ} :
    {A : Type ℓ} {B : Type κ} → Result A → (A → Result B) → (Str → Result B) → Result B
and_then (ok a) f handle = f a
and_then (err e) f handle = handle e
and_then panic f handle = panic

pub ok-injective : {A : Type 0} (a b : A) → ok a ≡ ok b → a ≡ b
ok-injective a b h = cc

module _ {ℓ κ} {A : Type ℓ} {B : Type κ} where
  -- Where errors are only worded anew, a value comes from a value.
  pub and_then-ok :
      (r : Result A) (f : A → Result B) (g : Str → Str) (b : B)
      → and_then r f (λ e. err (g e)) ≡ ok b
      → (a : A) × (r ≡ ok a) × (f a ≡ ok b)
  and_then-ok (ok a) f g b h = (a, refl, h)
  and_then-ok (err e) f g b h = cc
  and_then-ok panic f g b h = cc

  pub and_then-no_panic :
      (r : Result A) (f : A → Result B) (g : Str → Str)
      → r ≢ panic
      → ((a : A) → r ≡ ok a → f a ≢ panic)
      → and_then r f (λ e. err (g e)) ≢ panic
  and_then-no_panic (ok a) f g n h = h a refl
  and_then-no_panic (err e) f g n h = λ p. cc
  and_then-no_panic panic f g n h = absurd (n refl)
