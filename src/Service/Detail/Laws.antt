-- ===== src/Service/Detail/Laws.antt =====
-- What the detail panel shows of an inspection.
use mathlib.Core.List.{foldl}
use wingstation.Prelude.{
  Str, true, false, List, [], ◌∷◌, ◌++◌, ◌≡◌, ◌≢◌, ◌↔◌, refl, ◌∙◌, ap, any, arith, Bool-cases, inl,
  inr,
}
use wingstation.Go.Strings.{has_prefix}
use wingstation.Go.Strings.Cut.{
  Lacks, has_prefix-append, trim_prefix-append, split_n-once, split_n_of_Lacks,
}
use wingstation.Docker.Inspect.{DeviceRequest}
use wingstation.Service.Detail.Parts.{
  env_var, env_parts, option_or, security_option, gpus_text, asks_gpu,
}

-- An environment entry is cut at its first `=`: a key without `=`, the `=` and any value give
-- this key and this value, whatever bytes the value holds, and a text without `=` is a key with
-- an empty value.
pub env_var-parts :
    (k v : Str)
    → Lacks b'=' k
    → (env_var (k ++ b'=' ∷ v) ≡ record { key = k; value = v })
      × (env_var k ≡ record { key = k; value = [] })
unfolding env_var
env_var-parts k v h =
    (ap env_parts (split_n-once b'=' k v h), ap env_parts (split_n_of_Lacks b'=' 1 k h))

foldl-snoc :
    {A B : Type 0} (f : B → A → B) (b : B) (xs : List A) (x : A)
    → foldl f b (xs ++ x ∷ []) ≡ f (foldl f b xs) x
foldl-snoc f b [] x = refl
foldl-snoc f b (y ∷ xs) x = foldl-snoc f (f b y) xs x

-- The last option of a key is the one that is shown, and an option that does not start with the
-- key changes nothing.
pub security_option-last :
    (key : Str) (opts : List Str) (v other : Str)
    → has_prefix other key ≡ false
    → (security_option key (opts ++ (key ++ v) ∷ []) ≡ v)
      × (security_option key (opts ++ other ∷ []) ≡ security_option key opts)
unfolding security_option option_or
security_option-last key opts v other h = (
  foldl-snoc (option_or key) [] opts (key ++ v)
      ∙ rw (has_prefix-append key v) (trim_prefix-append key v),
  foldl-snoc (option_or key) [] opts other ∙ rw h refl,
)

gpus_text-asked : (reqs : List DeviceRequest) → any asks_gpu reqs ≡ true → gpus_text reqs ≢ []
unfolding gpus_text any
gpus_text-asked [] h = cc
gpus_text-asked (req ∷ reqs) h = ground (arith, gpus_text-asked reqs)

gpus_text-none : (reqs : List DeviceRequest) → any asks_gpu reqs ≡ false → gpus_text reqs ≡ []
unfolding gpus_text any
gpus_text-none [] h = refl
gpus_text-none (req ∷ reqs) h = ground (arith, gpus_text-none reqs)

-- The panel names a count of GPUs exactly if some device request asks for them, by the driver
-- or by a capability.
pub gpus_text_iff : (reqs : List DeviceRequest) → (gpus_text reqs ≢ []) ↔ (any asks_gpu reqs ≡ true)
gpus_text_iff reqs = (
  λ n. elim (Bool-cases (any asks_gpu reqs)) [
    | inl h ↦ h
    | inr h ↦ absurd (n (gpus_text-none reqs h))
  ],
  gpus_text-asked reqs,
)
