-- ===== src/Go/Strings.antt =====
-- The functions of package strings that the program calls. What they do on text beyond ASCII
-- rests on the tables of package unicode, which enter as a parameter.
pub mod Fold
pub mod Trim
pub mod Cut
use Prim.Native.Nat.{ℕ, zero, suc, ◌+◌, ◌-◌}
use mathlib.Core.List.{reverse}
use wingstation.Prelude.{
  Str, str_eq, Bool, true, false, not, ◌&&◌, ◌||◌, List, [], ◌∷◌, ◌++◌, Option, none, some, map,
  leb, ltb, ◌==◌, if◌then◌else◌, length, take, drop, any,
}

-- The loops over runes behind the ASCII fast paths.
pub record Unicode : Type 0 where
  -- `Map(unicode.ToLower, s)`
  pub lower : Str → Str
  -- the rune loop of `EqualFold`, entered at the first byte that is not ASCII
  pub fold_eq : Str → Str → Bool
  -- `TrimLeftFunc(s, unicode.IsSpace)` and `TrimRightFunc(s, unicode.IsSpace)`
  pub trim_left : Str → Str
  pub trim_right : Str → Str

unfoldable pub has_prefix : Str → Str → Bool
has_prefix s [] = true
has_prefix [] (p ∷ ps) = false
has_prefix (c ∷ s) (p ∷ ps) = (c == p) && has_prefix s ps

unfoldable pub trim_prefix : Str → Str → Str
trim_prefix s p = if has_prefix s p then drop (length p) s else s

unfoldable pub trim_suffix : Str → Str → Str
trim_suffix s p =
    let n = length s - length p in
    if leb (length p) (length s) && str_eq (drop n s) p then take n s else s

-- `Index(s, sub) != -1`
unfoldable pub contains : Str → Str → Bool
contains [] sub = has_prefix [] sub
contains (c ∷ s) sub = has_prefix (c ∷ s) sub || contains s sub

-- `Contains(s, "c")` for one byte
abbrev pub contains_byte : Str → ℕ → Bool
contains_byte s b = any (λ c. c == b) s

-- `s[:Index(s, "c")]` if the byte occurs, and `s` otherwise
unfoldable pub before_first : ℕ → Str → Str
before_first b [] = []
before_first b (c ∷ s) = if c == b then [] else c ∷ before_first b s

-- `s[:LastIndex(s, "c")]` if the byte occurs, and `s` otherwise
unfoldable pub before_last : ℕ → Str → Str
before_last b [] = []
before_last b (c ∷ s) =
    if contains_byte s b then c ∷ before_last b s else if c == b then [] else c ∷ s

-- a part is put before the first of the parts that follow
abbrev extend : ℕ → List Str → List Str
extend c [] = (c ∷ []) ∷ []
extend c (p ∷ ps) = (c ∷ p) ∷ ps

-- `Split(s, "c")`
unfoldable pub split : ℕ → Str → List Str
split b [] = [] ∷ []
split b (c ∷ s) = let rest = split b s in if c == b then [] ∷ rest else extend c rest

-- `SplitN(s, "c", n + 1)`: at most `n` cuts
unfoldable pub split_n : ℕ → ℕ → Str → List Str
split_n b n [] = [] ∷ []
split_n b zero (c ∷ s) = (c ∷ s) ∷ []
split_n b (suc n) (c ∷ s) =
    let cut = split_n b n s in
    let kept = split_n b (suc n) s in if c == b then [] ∷ cut else extend c kept

-- `Join(parts, sep)`
unfoldable pub join : Str → List Str → Str
join sep [] = []
join sep (p ∷ []) = p
join sep (p ∷ q ∷ ps) = p ++ (sep ++ join sep (q ∷ ps))

-- `c < utf8.RuneSelf`
abbrev pub is_ascii_byte : ℕ → Bool
is_ascii_byte c = ltb c 128

unfoldable pub is_ascii : Str → Bool
is_ascii [] = true
is_ascii (c ∷ s) = is_ascii_byte c && is_ascii s

abbrev pub is_upper : ℕ → Bool
is_upper c = leb b'A' c && leb c b'Z'

unfoldable pub lower_byte : ℕ → ℕ
lower_byte c = if is_upper c then c + 32 else c

unfoldable pub to_lower : Unicode → Str → Str
to_lower u s = if is_ascii s then map lower_byte s else u.lower s

-- One round of the ASCII loop of `EqualFold`: the bytes are equal, or an upper case letter and
-- its lower case one, in either order.
unfoldable pub same_letter : ℕ → ℕ → Bool
same_letter a b = a == b || (is_upper a && b == a + 32) || (is_upper b && a == b + 32)

unfoldable pub equal_fold : Unicode → Str → Str → Bool
unfolding same_letter
equal_fold u [] [] = true
equal_fold u [] (b ∷ t) = false
equal_fold u (a ∷ s) [] = false
equal_fold u (a ∷ s) (b ∷ t) =
    let rest = equal_fold u s t in
    if is_ascii_byte a && is_ascii_byte b
    then same_letter a b && rest
    else u.fold_eq (a ∷ s) (b ∷ t)

-- the table `asciiSpace`
unfoldable pub is_space : ℕ → Bool
is_space c = (leb 9 c && leb c 13) || c == 32

-- the loop of `TrimSpace` from the left
unfoldable pub skip_spaces : Str → Str
unfolding is_space
skip_spaces [] = []
skip_spaces (c ∷ s) = if is_space c then skip_spaces s else c ∷ s

abbrev pub starts_wide : Str → Bool
starts_wide [] = false
starts_wide (c ∷ s) = not (is_ascii_byte c)

-- `TrimSpace`: the ASCII loops from both sides, left for the rune loops at the first byte of
-- either side that is not ASCII.
unfoldable pub trim_space : Unicode → Str → Str
unfolding skip_spaces
trim_space u s =
    let left = skip_spaces s in
    let back = skip_spaces (reverse left) in
    if starts_wide left
    then u.trim_right (u.trim_left left)
    else if starts_wide back
    then u.trim_right (reverse back)
    else reverse back
