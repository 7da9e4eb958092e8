-- ===== src/Go/Strings/Trim.antt =====
-- `TrimSpace` on ASCII text.
use Prim.Native.Nat.{ℕ}
use mathlib.Core.List.{reverse, reverse-append, reverse-reverse, reverse-cons}
use wingstation.Prelude.{
  Str, true, false, [], ◌∷◌, ◌++◌, ◌≡◌, refl, inl, inr, All, All-append, Bool-cases,
}
use wingstation.Go.Strings.{Unicode, is_ascii_byte, is_space, skip_spaces, starts_wide, trim_space}

-- Empty, or starting with no space.
abbrev IsSolid : Str → Type 0
IsSolid [] = Unit
IsSolid (c ∷ s) = is_space c ≡ false

skip_spaces-IsSolid : (s : Str) → IsSolid (skip_spaces s)
unfolding skip_spaces
skip_spaces-IsSolid [] = tt
skip_spaces-IsSolid (c ∷ s) = elim (Bool-cases (is_space c)) [
  | inl e ↦ rw e (skip_spaces-IsSolid s)
  | inr e ↦ rw e e
]

skip_spaces_of_IsSolid : (s : Str) → IsSolid s → skip_spaces s ≡ s
unfolding skip_spaces
skip_spaces_of_IsSolid [] h = refl
skip_spaces_of_IsSolid (c ∷ s) h = rw h

-- A solid byte at the end stays there.
skip_spaces_last :
    (s : Str) (c : ℕ) → is_space c ≡ false → (t : Str) × (skip_spaces (s ++ c ∷ []) ≡ t ++ c ∷ [])
unfolding skip_spaces
skip_spaces_last [] c h = ([], rw h)
skip_spaces_last (d ∷ s) c h = elim (Bool-cases (is_space d)) [
  | inl e ↦ rw e (skip_spaces_last s c h)
  | inr e ↦ rw e (d ∷ s, refl)
]

-- Skipping at the end keeps a solid start.
back-IsSolid : (s : Str) → IsSolid s → IsSolid (reverse (skip_spaces (reverse s)))
back-IsSolid [] h = unfold skip_spaces in tt
back-IsSolid (c ∷ s) h =
    let (t, e) = skip_spaces_last (reverse s) c h in rw (reverse-cons, e, reverse-append) h

-- The ASCII loops alone.
trim : Str → Str
trim s = reverse (skip_spaces (reverse (skip_spaces s)))

trim_idempotent : (s : Str) → trim (trim s) ≡ trim s
unfolding trim
trim_idempotent s =
    let start =
      skip_spaces_of_IsSolid (trim s) (back-IsSolid (skip_spaces s) (skip_spaces-IsSolid s)) in
    let finish = skip_spaces_of_IsSolid _ (skip_spaces-IsSolid (reverse (skip_spaces s))) in
    rw (start, reverse-reverse, finish)

module _ {ℓ} (P : ℕ → Type ℓ) where
  All-reverse : (s : Str) → All P s → All P (reverse s)
  All-reverse [] h = tt
  All-reverse (c ∷ s) (p, h) =
      rw reverse-cons (All-append P (reverse s) (c ∷ []) (All-reverse s h) (p, tt))

  All-skip_spaces : (s : Str) → All P s → All P (skip_spaces s)
  unfolding skip_spaces
  All-skip_spaces [] h = tt
  All-skip_spaces (c ∷ s) (p, h) = elim (Bool-cases (is_space c)) [
    | inl e ↦ rw e (All-skip_spaces s h)
    | inr e ↦ rw e (p, h)
  ]

  All-trim : (s : Str) → All P s → All P (trim s)
  unfolding trim
  All-trim s h = All-reverse _ (All-skip_spaces _ (All-reverse _ (All-skip_spaces s h)))

-- Every byte is below `utf8.RuneSelf`.
abbrev pub IsAscii : Str → Type 0
IsAscii = All (λ c. is_ascii_byte c ≡ true)

starts_wide_of_IsAscii : (s : Str) → IsAscii s → starts_wide s ≡ false
starts_wide_of_IsAscii [] h = refl
starts_wide_of_IsAscii (c ∷ s) (p, h) = rw p

trim_space-trim : (u : Unicode) (s : Str) → IsAscii s → trim_space u s ≡ trim s
unfolding trim_space trim
trim_space-trim u s h =
    let left = All-skip_spaces _ s h in
    let back = All-skip_spaces _ _ (All-reverse _ _ left) in
    rw (starts_wide_of_IsAscii _ left, starts_wide_of_IsAscii _ back)

-- On ASCII text `TrimSpace` trims all there is to trim.
pub trim_space_idempotent :
    (u : Unicode) (s : Str) → IsAscii s → trim_space u (trim_space u s) ≡ trim_space u s
trim_space_idempotent u s h =
    rw (trim_space-trim u s h, trim_space-trim u (trim s) (All-trim _ s h)) (trim_idempotent s)

-- On ASCII text `TrimSpace` brings no new bytes.
pub All-trim_space {ℓ} :
    (P : ℕ → Type ℓ) (u : Unicode) (s : Str) → IsAscii s → All P s → All P (trim_space u s)
All-trim_space P u s h k = rw (trim_space-trim u s h) (All-trim P s k)
