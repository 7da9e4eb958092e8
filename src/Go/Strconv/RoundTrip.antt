-- ===== src/Go/Strconv/RoundTrip.antt =====
-- Decimal text, written by package fmt and read by `strconv.Atoi`.
use Prim.Native.Nat.{ℕ, zero, suc, ◌+◌, ◌-◌, ◌*◌, ◌/◌, ◌%◌, ◌<◌, ◌^◌}
use wingstation.Go.Strings.Cut.{Lacks}
use wingstation.Prelude.{
  Str, All, Bool, true, false, [], ◌∷◌, none, some, ◌≡◌, ◌≢◌, All-imp, refl, sym, ◌∙◌, ap, ltb,
  if◌then◌else◌, Bool-cases, inl, inr, arith,
}
use wingstation.Prelude.Int.{ℤ, pos, negsuc}
use wingstation.Go.Strconv.{
  is_digit, digits_value, unsigned, nonneg, negated, atoi, digits_onto, itoa, itoa_ℤ,
}

-- The number is one of 64 bits.
abbrev pub in_range : ℤ → Bool
in_range (pos n) = ltb n (2 ^ 63)
in_range (negsuc n) = ltb n (2 ^ 63)

digits_value-digit :
    (m c : ℕ) (s : Str)
    → is_digit c ≡ true
    → digits_value m (c ∷ s) ≡ digits_value (m * 10 + (c - b'0')) s
unfolding digits_value
digits_value-digit m c s h = rw (h, digits_value) refl

digit_of : (n : ℕ) → ltb n 10 ≡ true → is_digit (b'0' + n) ≡ true
digit_of n h = ground arith

tens_below : (fuel n : ℕ) → n < suc fuel → ltb n 10 ≡ false → n / 10 < fuel
tens_below fuel n h more = ground arith

mod_digit : (n : ℕ) → ltb (n % 10) 10 ≡ true
mod_digit n = ground arith

tens_and_ones : (n : ℕ) → n / 10 * 10 + (b'0' + n % 10 - b'0') ≡ n
tens_and_ones n = omega arith

digits_value-digits_onto :
    (fuel n : ℕ) (out : Str)
    → n < fuel
    → digits_value 0 (digits_onto fuel n out) ≡ digits_value n out
unfolding digits_onto
digits_value-digits_onto zero n out h = absurd (omega arith)
digits_value-digits_onto (suc fuel) n out h = elim (Bool-cases (ltb n 10)) [
  | inl last ↦ rw last (
      digits_value-digit 0 (b'0' + n) out (digit_of n last)
      ∙ ap (λ m. digits_value m out) (omega arith))
  | inr more ↦
      let m = n / 10 in
      rw more (
        digits_value-digits_onto fuel m ((b'0' + n % 10) ∷ out) (tens_below fuel n h more)
        ∙ digits_value-digit m (b'0' + n % 10) out (digit_of (n % 10) (mod_digit n))
        ∙ ap (λ k. digits_value k out) (tens_and_ones n))
]

-- The text starts with a digit.
digits_onto-digit :
    (fuel n : ℕ) (out : Str)
    → n < fuel
    → (c : ℕ) × (s : Str) × (digits_onto fuel n out ≡ c ∷ s) × (is_digit c ≡ true)
unfolding digits_onto
digits_onto-digit zero n out h = absurd (omega arith)
digits_onto-digit (suc fuel) n out h = elim (Bool-cases (ltb n 10)) [
  | inl last ↦ rw last (b'0' + n, out, refl, digit_of n last)
  | inr more ↦
      rw more (digits_onto-digit fuel (n / 10) ((b'0' + n % 10) ∷ out) (tens_below fuel n h more))
]

pub unsigned-itoa : (n : ℕ) → unsigned (itoa n) ≡ some n
unfolding itoa
unsigned-itoa n =
    let (c, s, e, d) = digits_onto-digit (suc n) n [] (omega arith) in
    ap unsigned e
    ∙ ap (digits_value 0) (sym e)
    ∙ digits_value-digits_onto (suc n) n [] (omega arith)
    ∙ (unfold digits_value in refl)

-- A text that starts with a digit has no sign.
atoi-digit : (c : ℕ) (s : Str) → is_digit c ≡ true → atoi (c ∷ s) ≡ nonneg (unsigned (c ∷ s))
unfolding atoi
atoi-digit c s h = ground arith

atoi-itoa : (n : ℕ) → atoi (itoa n) ≡ nonneg (some n)
unfolding itoa
atoi-itoa n =
    let (c, s, e, d) = digits_onto-digit (suc n) n [] (omega arith) in
    ap atoi e
    ∙ atoi-digit c s d
    ∙ ap (λ t. nonneg (unsigned t)) (sym e)
    ∙ ap nonneg (unsigned-itoa n)

-- The decimal text of a number of 64 bits is read as this number.
pub atoi-itoa_ℤ : (z : ℤ) → in_range z ≡ true → atoi (itoa_ℤ z) ≡ some z
unfolding itoa_ℤ atoi
atoi-itoa_ℤ (pos n) h = atoi-itoa n ∙ ap (λ b. if b then some (pos n) else none) h
atoi-itoa_ℤ (negsuc n) h =
    ap negated (unsigned-itoa (suc n)) ∙ ap (λ b. if b then some (negsuc n) else none) h

digits_onto-All :
    (fuel n : ℕ) (out : Str)
    → All (λ c. is_digit c ≡ true) out
    → All (λ c. is_digit c ≡ true) (digits_onto fuel n out)
unfolding digits_onto
digits_onto-All zero n out h = h
digits_onto-All (suc fuel) n out h = elim (Bool-cases (ltb n 10)) [
  | inl last ↦ rw last (digit_of n last, h)
  | inr more ↦ rw more (digits_onto-All fuel (n / 10) _ (digit_of (n % 10) (mod_digit n), h))
]

-- The text of a number is digits.
pub itoa-All : (n : ℕ) → All (λ c. is_digit c ≡ true) (itoa n)
unfolding itoa
itoa-All n = digits_onto-All (suc n) n [] tt

-- Nothing else is in it.
pub itoa-Lacks : (b n : ℕ) → is_digit b ≡ false → Lacks b (itoa n)
itoa-Lacks b n h =
    All-imp (λ c. is_digit c ≡ true) (λ c. c ≢ b) (λ c d. not_digit b c h d) (itoa n) (itoa-All n)
  where
    not_digit : (b c : ℕ) → is_digit b ≡ false → is_digit c ≡ true → c ≢ b
    not_digit b c h d = λ e. cc
