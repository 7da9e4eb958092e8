-- ===== src/Server/Helpers/Mask.antt =====
-- What the masked value of a sensitive variable shows.
use Prim.Native.Nat.{ℕ, ◌-◌, ◌≤◌, ◌<◌}
use wingstation.Prelude.{
  Str, bytes, true, ◌++◌, ◌≡◌, ◌⊎◌, refl, sym, ◌∙◌, ap, if◌then◌else◌, length, take, drop,
  replicate, leb, length-append, length-take, length-drop, length-replicate, arith, inl, inr,
}
use wingstation.Go.Strings.{Unicode}
use wingstation.Server.Helpers.{is_sensitive_key, mask_value, star}

-- Two values look the same under a mask.
pub record LookAlike (v w : Str) : Type 0 where
  pub same_length : length v ≡ length w
  pub same_start : take 2 v ≡ take 2 w
  pub same_end : drop (length v - 2) v ≡ drop (length w - 2) w

-- Both are short, or they look the same.
abbrev pub AreAlike : Str → Str → Type 0
AreAlike v w = ((length v ≤ 4) × (length w ≤ 4)) ⊎ LookAlike v w

-- The mask, from the length and the two ends.
masked : ℕ → Str → Str → Str
masked n start end = if leb n 4 then bytes "****" else start ++ (replicate (n - 4) star ++ end)

masked_short : (n : ℕ) (start end : Str) → n ≤ 4 → masked n start end ≡ bytes "****"
unfolding masked
masked_short n start end h = ground arith

masked-length :
    (n : ℕ) (start end : Str)
    → 4 < n
    → length start ≡ 2
    → length end ≡ 2
    → length (masked n start end) ≡ n
unfolding masked
masked-length n start end h p q = ground (
  arith,
  length-append start (replicate (n - 4) star ++ end),
  length-append (replicate (n - 4) star) end,
  length-replicate (n - 4) star,
)

module _ (u : Unicode) (key : Str) (sensitive : is_sensitive_key u key ≡ true) where
  mask_value-shown :
      (v : Str) → mask_value u key v ≡ masked (length v) (take 2 v) (drop (length v - 2) v)
  unfolding mask_value masked
  mask_value-shown v = rw sensitive refl

  -- The mask of a sensitive variable shows nothing of a value of at most four bytes, and nothing
  -- of a longer one but its length, its first two bytes and its last two: two values that are both
  -- short, or that agree in these, have the same mask.
  pub mask_value-hides : (v w : Str) → AreAlike v w → mask_value u key v ≡ mask_value u key w
  mask_value-hides v w (inl (p, q)) =
      mask_value-shown v
      ∙ (masked_short (length v) _ _ p ∙ sym (masked_short (length w) _ _ q))
      ∙ sym (mask_value-shown w)
  mask_value-hides v w (inr l) =
      mask_value-shown v
      ∙ (λ i. masked (l.same_length i) (l.same_start i) (l.same_end i))
      ∙ sym (mask_value-shown w)

  -- A value of more than four bytes keeps its length under the mask.
  pub length-mask_value : (v : Str) → 4 < length v → length (mask_value u key v) ≡ length v
  length-mask_value v h =
      ap length (mask_value-shown v)
      ∙ masked-length (length v) (take 2 v) (drop (length v - 2) v) h
          (omega (arith, length-take 2 v)) (omega (arith, length-drop (length v - 2) v))
