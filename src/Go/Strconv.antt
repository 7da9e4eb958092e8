-- ===== src/Go/Strconv.antt =====
-- `strconv.Atoi`, `strconv.ParseBool` and the verb `%d` of package fmt.
pub mod RoundTrip
use Prim.Native.Nat.{ℕ, zero, suc, ◌+◌, ◌-◌, ◌*◌, ◌/◌, ◌%◌, ◌^◌}
use wingstation.Prelude.{
  Str, bytes, str_eq, Bool, true, false, ◌&&◌, [], ◌∷◌, Option, none, some, leb, ltb, ◌==◌,
  if◌then◌else◌, any,
}
use wingstation.Prelude.Int.{ℤ, pos, negsuc}

abbrev pub is_digit : ℕ → Bool
is_digit c = leb b'0' c && leb c b'9'

-- The number that the digits spell behind `n`; `none` at any other byte.
unfoldable pub digits_value : ℕ → Str → Option ℕ
digits_value n [] = some n
digits_value n (c ∷ s) = elim (is_digit c) [
  | true ↦ digits_value (n * 10 + (c - b'0')) s
  | false ↦ none
]

-- At least one digit.
abbrev pub unsigned : Str → Option ℕ
unsigned [] = none
unsigned (c ∷ s) = digits_value 0 (c ∷ s)

abbrev pub nonneg : Option ℕ → Option ℤ
nonneg none = none
nonneg (some n) = if ltb n (2 ^ 63) then some (pos n) else none

abbrev pub negated : Option ℕ → Option ℤ
negated none = none
negated (some zero) = some (pos 0)
negated (some (suc n)) = if ltb n (2 ^ 63) then some (negsuc n) else none

-- `Atoi` on a platform whose int has 64 bits: `none` is a non-nil error.
unfoldable pub atoi : Str → Option ℤ
unfolding digits_value
atoi [] = none
atoi (c ∷ s) =
    if c == b'-'
    then negated (unsigned s)
    else if c == b'+'
    then nonneg (unsigned s)
    else nonneg (unsigned (c ∷ s))

-- `ParseBool`: exactly these spellings.
unfoldable pub parse_bool : Str → Option Bool
parse_bool s =
    if any (str_eq s)
      (bytes "1" ∷ bytes "t" ∷ bytes "T" ∷ bytes "TRUE" ∷ bytes "true" ∷ bytes "True" ∷ [])
    then some true
    else if any (str_eq s)
        (bytes "0" ∷ bytes "f" ∷ bytes "F" ∷ bytes "FALSE" ∷ bytes "false" ∷ bytes "False" ∷ [])
    then some false
    else none

-- The decimal digits of `n`, put before `out`; the fuel is above the number.
unfoldable pub digits_onto : ℕ → ℕ → Str → Str
digits_onto zero n out = out
digits_onto (suc fuel) n out =
    let more = digits_onto fuel (n / 10) ((b'0' + n % 10) ∷ out) in
    if ltb n 10 then (b'0' + n) ∷ out else more

-- `%d` of an unsigned number
unfoldable pub itoa : ℕ → Str
unfolding digits_onto
itoa n = digits_onto (suc n) n []

-- `%d` of a signed number
unfoldable pub itoa_ℤ : ℤ → Str
unfolding itoa
itoa_ℤ (pos n) = itoa n
itoa_ℤ (negsuc n) = b'-' ∷ itoa (suc n)
