-- ===== src/Server/Helpers/Uptime.antt =====
-- The uptime of a card, against a reading of its text.
use Prim.Native.Nat.{ℕ, ◌+◌, ◌*◌, ◌/◌, ◌%◌, ◌≤◌, ◌<◌}
use wingstation.Prelude.{
  Str, false, List, [], ◌∷◌, ◌++◌, Option, none, some, ◌≡◌, ◌≢◌, refl, sym, ◌∙◌, ap, if◌then◌else◌,
  All-append, ◌==◌, arith, ltb, Bool-cases, inl, inr, append_assoc,
}
use wingstation.Prelude.Int.{pos}
use wingstation.Go.Strings.{contains_byte, before_first, split_n}
use wingstation.Go.Strings.Cut.{
  Lacks, contains_byte-Lacks, contains_byte-middle, before_first-append, split_n_of_Lacks,
  split_n-once,
}
use wingstation.Go.Strconv.{is_digit, itoa, itoa_ℤ, unsigned}
use wingstation.Go.Strconv.RoundTrip.{itoa-Lacks, unsigned-itoa}
use wingstation.Server.Helpers.{Floats, format_uptime}

abbrev pub minute : ℕ
minute = 60_000_000_000

-- At whole minutes the floating point numbers are exact.
pub record IsExact (f : Floats) : Type 0 where
  pub hours_exact : (m : ℕ) → f.hours (pos (m * minute)) ≡ pos (m / 60)
  pub minutes_exact : (m : ℕ) → f.minutes (pos (m * minute)) ≡ pos m

abbrev scaled : ℕ → Option ℕ → Option ℕ
scaled n none = none
scaled n (some k) = some (k * n)

-- One part of the text, in minutes: a number and the letter of its unit.
unfoldable pub part_minutes : Str → Option ℕ
part_minutes s =
    if contains_byte s b'd'
    then scaled 1440 (unsigned (before_first b'd' s))
    else if contains_byte s b'h'
    then scaled 60 (unsigned (before_first b'h' s))
    else scaled 1 (unsigned (before_first b'm' s))

abbrev add_parts : Option ℕ → Option ℕ → Option ℕ
add_parts (some a) (some b) = some (a + b)
add_parts _ _ = none

abbrev sum_parts : List Str → Option ℕ
sum_parts [] = some 0
sum_parts (p ∷ ps) = add_parts (part_minutes p) (sum_parts ps)

-- The minutes that the text says.
unfoldable pub uptime_minutes : Str → Option ℕ
unfolding part_minutes
uptime_minutes s = sum_parts (split_n b' ' 1 s)

lacks_letter :
    (b c n : ℕ) → is_digit b ≡ false → (c == b) ≡ false → contains_byte (itoa n ++ c ∷ []) b ≡ false
lacks_letter b c n h d =
    contains_byte-Lacks b (itoa n ++ c ∷ [])
      (All-append (λ x. x ≢ b) (itoa n) (c ∷ []) (itoa-Lacks b n h) (ground arith, tt))

-- No part holds a space.
part-Lacks : (a x : ℕ) → (a == 32) ≡ false → Lacks b' ' (itoa x ++ a ∷ [])
part-Lacks a x n =
    All-append (λ c. c ≢ b' ') (itoa x) (a ∷ []) (itoa-Lacks b' ' x refl) (ground arith, tt)

module _ (n : ℕ) where
  part_minutes-d : part_minutes (itoa n ++ b'd' ∷ []) ≡ some (n * 1440)
  unfolding part_minutes
  part_minutes-d =
      rw
        (
          contains_byte-middle b'd' (itoa n) [],
          before_first-append b'd' (itoa n) [] (itoa-Lacks b'd' n refl),
          unsigned-itoa n,
        )
        refl

  part_minutes-h : part_minutes (itoa n ++ b'h' ∷ []) ≡ some (n * 60)
  unfolding part_minutes
  part_minutes-h =
      rw
        (
          lacks_letter b'd' b'h' n refl refl,
          contains_byte-middle b'h' (itoa n) [],
          before_first-append b'h' (itoa n) [] (itoa-Lacks b'h' n refl),
          unsigned-itoa n,
        )
        refl

  part_minutes-m : part_minutes (itoa n ++ b'm' ∷ []) ≡ some n
  unfolding part_minutes
  part_minutes-m =
      rw
        (
          lacks_letter b'd' b'm' n refl refl,
          lacks_letter b'h' b'm' n refl refl,
          before_first-append b'm' (itoa n) [] (itoa-Lacks b'm' n refl),
          unsigned-itoa n,
        )
        (ap some (omega arith))

-- A text of two parts, and of one.
two_parts :
    (a x y : ℕ) (s : Str)
    → (a == 32) ≡ false
    → part_minutes (itoa x ++ a ∷ []) ≡ some y
    → uptime_minutes (itoa x ++ (a ∷ b' ' ∷ s)) ≡ add_parts (some y) (sum_parts (s ∷ []))
unfolding uptime_minutes
two_parts a x y s n p =
    let first = itoa x ++ a ∷ [] in
    ap (λ r. sum_parts (split_n b' ' 1 r)) (sym (append_assoc (itoa x) (a ∷ []) (b' ' ∷ s)))
    ∙ ap sum_parts (split_n-once b' ' first s (part-Lacks a x n))
    ∙ ap (λ o. add_parts o (sum_parts (s ∷ []))) p

one_part :
    (a x y : ℕ)
    → (a == 32) ≡ false
    → part_minutes (itoa x ++ a ∷ []) ≡ some y
    → uptime_minutes (itoa x ++ a ∷ []) ≡ some y
unfolding uptime_minutes
one_part a x y n p =
    ap sum_parts (split_n_of_Lacks b' ' 1 (itoa x ++ a ∷ []) (part-Lacks a x n))
    ∙ ap (λ o. add_parts o (some 0)) p
    ∙ ap some (omega arith)

-- What is left of the minutes: from a day on, the whole hours.
abbrev pub shown_minutes : ℕ → ℕ
shown_minutes m = if ltb m 1440 then m else m / 60 * 60

last_part :
    (a x y : ℕ)
    → part_minutes (itoa x ++ a ∷ []) ≡ some y
    → sum_parts ((itoa x ++ a ∷ []) ∷ []) ≡ some y
last_part a x y p = ap (λ o. add_parts o (some 0)) p ∙ ap some (omega arith)

read_days :
    (m : ℕ)
    → 1440 ≤ m
    → uptime_minutes (itoa (m / 60 / 24) ++ (b'd' ∷ b' ' ∷ (itoa (m / 60 % 24) ++ b'h' ∷ [])))
      ≡ some (shown_minutes m)
read_days m h =
    let days = m / 60 / 24 in
    let hours = m / 60 % 24 in
    two_parts b'd' days (days * 1440) (itoa hours ++ b'h' ∷ []) refl (part_minutes-d days)
    ∙ ap (add_parts (some (days * 1440))) (last_part b'h' hours (hours * 60) (part_minutes-h hours))
    ∙ ap some (ground arith)

read_hours :
    (m : ℕ)
    → m < 1440
    → uptime_minutes (itoa (m / 60 % 24) ++ (b'h' ∷ b' ' ∷ (itoa (m % 60) ++ b'm' ∷ [])))
      ≡ some (shown_minutes m)
read_hours m h =
    let hours = m / 60 % 24 in
    two_parts b'h' hours (hours * 60) (itoa (m % 60) ++ b'm' ∷ []) refl (part_minutes-h hours)
    ∙ ap (add_parts (some (hours * 60)))
        (last_part b'm' (m % 60) (m % 60) (part_minutes-m (m % 60)))
    ∙ ap some (ground arith)

read_minutes :
    (m : ℕ) → m < 60 → uptime_minutes (itoa (m % 60) ++ b'm' ∷ []) ≡ some (shown_minutes m)
read_minutes m h =
    one_part b'm' (m % 60) (m % 60) refl (part_minutes-m (m % 60)) ∙ ap some (ground arith)

-- The text of an uptime of whole minutes, read back, is the uptime, rounded down to whole hours
-- from a day on, if the floating point numbers are exact at whole minutes.
pub uptime_minutes-format_uptime :
    (f : Floats) (m : ℕ)
    → IsExact f
    → uptime_minutes (format_uptime f (pos (m * minute))) ≡ some (shown_minutes m)
unfolding format_uptime itoa_ℤ
uptime_minutes-format_uptime f m x =
    let days = m / 60 / 24 in
    let hours = m / 60 % 24 in
    rw (x.hours_exact m, x.minutes_exact m)
      (elim (Bool-cases (ltb (0 + 0) (days + 0))) [
        | inl some_days ↦ rw some_days (read_days m (ground arith))
        | inr no_days ↦ rw no_days (elim (Bool-cases (ltb (0 + 0) (hours + 0))) [
          | inl some_hours ↦ rw some_hours (read_hours m (ground arith))
          | inr no_hours ↦ rw no_hours (read_minutes m (ground arith))
        ])
      ])
