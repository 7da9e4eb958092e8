-- ===== src/Prelude/Text.antt =====
-- Go strings: sequences of bytes, with `==` and `<` of the language.
use Prim.Native.Nat.{ℕ}
use Prim.Native.Char.{code}
use Prim.Native.String.{String}
use mathlib.Core.Path.{◌≡◌, refl}
use mathlib.Core.Logic.{◌↔◌}
use mathlib.Core.Bool.{Bool, true, false, ◌&&◌}
use mathlib.Core.List.{List, [], ◌∷◌}
use native.Mathlib.Omega.{arith}
use wingstation.Prelude.Tests.{ltb, ◌==◌, if◌then◌else◌}

-- The bytes of a Go string.
abbrev pub Str : Type 0
Str = List ℕ

-- The bytes of a literal. The literals of the program that are modelled are ASCII, so that
-- their code points are their bytes.
abbrev pub bytes : String → Str
bytes String.[] = []
bytes (String.◌∷◌ c s) = code c ∷ bytes s

-- `s == t`
unfoldable pub str_eq : Str → Str → Bool
str_eq [] [] = true
str_eq (a ∷ s) (b ∷ t) = (a == b) && str_eq s t
str_eq _ _ = false

-- `s < t`: bytewise lexicographic order.
unfoldable pub str_lt : Str → Str → Bool
str_lt [] [] = false
str_lt [] (b ∷ t) = true
str_lt (a ∷ s) [] = false
str_lt (a ∷ s) (b ∷ t) = if a == b then str_lt s t else ltb a b

pub str_eq_refl : (s : Str) → str_eq s s ≡ true
unfolding str_eq
str_eq_refl [] = refl
str_eq_refl (a ∷ s) = ground (arith, str_eq_refl s)

str_eq_sound : (s t : Str) → str_eq s t ≡ true → s ≡ t
unfolding str_eq
str_eq_sound [] [] h = refl
str_eq_sound [] (b ∷ t) h = cc
str_eq_sound (a ∷ s) [] h = cc
str_eq_sound (a ∷ s) (b ∷ t) h = ground (arith, str_eq_sound s t)

-- `==` decides equality of strings.
pub str_eq_iff : (s t : Str) → (str_eq s t ≡ true) ↔ (s ≡ t)
str_eq_iff s t = (str_eq_sound s t, λ e. rw e (str_eq_refl t))

pub str_lt_irrefl : (s : Str) → str_lt s s ≡ false
unfolding str_lt
str_lt_irrefl [] = refl
str_lt_irrefl (a ∷ s) = ground (arith, str_lt_irrefl s)

pub str_lt_trans : (s t u : Str) → str_lt s t ≡ true → str_lt t u ≡ true → str_lt s u ≡ true
unfolding str_lt
str_lt_trans [] [] u h k = cc
str_lt_trans [] (b ∷ t) [] h k = cc
str_lt_trans [] (b ∷ t) (c ∷ u) h k = refl
str_lt_trans (a ∷ s) [] u h k = cc
str_lt_trans (a ∷ s) (b ∷ t) [] h k = cc
str_lt_trans (a ∷ s) (b ∷ t) (c ∷ u) h k = ground (arith, str_lt_trans s t u)

-- Strings that neither precedes the other are equal.
pub str_lt_antisymm : (s t : Str) → str_lt s t ≡ false → str_lt t s ≡ false → s ≡ t
unfolding str_lt
str_lt_antisymm [] [] h k = refl
str_lt_antisymm [] (b ∷ t) h k = cc
str_lt_antisymm (a ∷ s) [] h k = cc
str_lt_antisymm (a ∷ s) (b ∷ t) h k = ground (arith, str_lt_antisymm s t)

-- The order is negatively transitive.
pub str_lt_negtrans : (s t u : Str) → str_lt s t ≡ false → str_lt t u ≡ false → str_lt s u ≡ false
unfolding str_lt
str_lt_negtrans [] [] u h k = k
str_lt_negtrans [] (b ∷ t) u h k = cc
str_lt_negtrans (a ∷ s) [] [] h k = refl
str_lt_negtrans (a ∷ s) [] (c ∷ u) h k = cc
str_lt_negtrans (a ∷ s) (b ∷ t) [] h k = refl
str_lt_negtrans (a ∷ s) (b ∷ t) (c ∷ u) h k = ground (arith, str_lt_negtrans s t u)
