-- ===== src/Go/Strings/Fold.antt =====
-- The case-insensitive comparisons, on ASCII text.
use Prim.Native.Nat.{ℕ}
use wingstation.Prelude.{Str, str_eq, true, [], ◌∷◌, ◌≡◌, refl, ◌==◌, arith, map, and-true}
use wingstation.Go.Strings.{
  Unicode, is_ascii, is_ascii_byte, lower_byte, to_lower, same_letter, equal_fold,
}

same_letter-lower : (a b : ℕ) → same_letter a b ≡ (lower_byte a == lower_byte b)
unfolding same_letter lower_byte
same_letter-lower a b = ground arith

is_ascii-cons :
    (c : ℕ) (s : Str) → is_ascii (c ∷ s) ≡ true → (is_ascii_byte c ≡ true) × (is_ascii s ≡ true)
unfolding is_ascii
is_ascii-cons c s h = ground arith

equal_fold-lower :
    (u : Unicode) (s t : Str)
    → is_ascii s ≡ true
    → is_ascii t ≡ true
    → equal_fold u s t ≡ str_eq (map lower_byte s) (map lower_byte t)
unfolding equal_fold is_ascii str_eq
equal_fold-lower u [] [] h k = refl
equal_fold-lower u [] (b ∷ t) h k = refl
equal_fold-lower u (a ∷ s) [] h k = refl
equal_fold-lower u (a ∷ s) (b ∷ t) h k =
    ground (arith, same_letter-lower a b, equal_fold-lower u s t)

-- On ASCII text `EqualFold` is equality of the lower case forms.
pub equal_fold-to_lower :
    (u : Unicode) (s t : Str)
    → is_ascii s ≡ true
    → is_ascii t ≡ true
    → equal_fold u s t ≡ str_eq (to_lower u s) (to_lower u t)
unfolding to_lower
equal_fold-to_lower u s t h k = rw (h, k) (equal_fold-lower u s t h k)

lower_byte_ascii : (c : ℕ) → is_ascii_byte c ≡ true → is_ascii_byte (lower_byte c) ≡ true
unfolding lower_byte
lower_byte_ascii c h = ground arith

lower_byte_idempotent : (c : ℕ) → lower_byte (lower_byte c) ≡ lower_byte c
unfolding lower_byte
lower_byte_idempotent c = ground arith

map_lower-ascii : (s : Str) → is_ascii s ≡ true → is_ascii (map lower_byte s) ≡ true
unfolding is_ascii
map_lower-ascii [] h = refl
map_lower-ascii (c ∷ s) h =
    let (p, q) = and-true _ _ h in rw (lower_byte_ascii c p, map_lower-ascii s q)

map_lower_idempotent : (s : Str) → map lower_byte (map lower_byte s) ≡ map lower_byte s
map_lower_idempotent [] = refl
map_lower_idempotent (c ∷ s) = rw (lower_byte_idempotent c, map_lower_idempotent s)

-- The lower case form of ASCII text is ASCII, and its own lower case form.
pub to_lower-ascii : (u : Unicode) (s : Str) → is_ascii s ≡ true → is_ascii (to_lower u s) ≡ true
unfolding to_lower
to_lower-ascii u s h = rw h (map_lower-ascii s h)

pub to_lower_idempotent :
    (u : Unicode) (s : Str) → is_ascii s ≡ true → to_lower u (to_lower u s) ≡ to_lower u s
unfolding to_lower
to_lower_idempotent u s h = rw (h, map_lower-ascii s h) (map_lower_idempotent s)

pub to_lower-eq_nil :
    (u : Unicode) (s : Str) → is_ascii s ≡ true → str_eq (to_lower u s) [] ≡ str_eq s []
unfolding to_lower str_eq
to_lower-eq_nil u [] h = unfold is_ascii in refl
to_lower-eq_nil u (c ∷ s) h = rw h
