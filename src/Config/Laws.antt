-- ===== src/Config/Laws.antt =====
-- What the environment says of the configuration.
use wingstation.Prelude.{
  Str, bytes, str_eq, Bool, true, false, not, List, [], ◌∷◌, ◌++◌, Option, none, some, ◌≡◌, ◌≢◌,
  refl, sym, ◌∙◌, ap, any, if◌then◌else◌,
}
use wingstation.Prelude.Int.{ℤ, pos}
use wingstation.Go.Strconv.{atoi, parse_bool, itoa_ℤ}
use wingstation.Go.Strconv.RoundTrip.{in_range, atoi-itoa_ℤ}
use wingstation.Config.{addr, env_str, env_int, env_bool, load}

-- An empty text is no number, so that the test for it changes nothing.
env_int-atoi :
    (getenv : Str → Str) (key : Str) (fallback : ℤ)
    → env_int getenv key fallback ≡ elim (atoi (getenv key)) [ none ↦ fallback | some n ↦ n ]
unfolding env_int
env_int-atoi getenv key fallback = unset (getenv key)
  where
    unset :
        (v : Str)
        → (if not (str_eq v []) then elim (atoi v) [ none ↦ fallback | some n ↦ n ] else fallback)
          ≡ elim (atoi v) [ none ↦ fallback | some n ↦ n ]
    unset [] = unfold str_eq atoi in refl
    unset (c ∷ v) = unfold str_eq in refl

-- A variable that is set to the decimal text of a number of 64 bits is read as this number,
-- whatever the default.
pub env_int-itoa_ℤ :
    (getenv : Str → Str) (key : Str) (fallback z : ℤ)
    → getenv key ≡ itoa_ℤ z
    → in_range z ≡ true
    → env_int getenv key fallback ≡ z
env_int-itoa_ℤ getenv key fallback z e h =
    env_int-atoi getenv key fallback
    ∙ ap (λ o. elim o [ none ↦ fallback | some n ↦ n ]) (ap atoi e ∙ atoi-itoa_ℤ z h)

env_str_set :
    (getenv : Str → Str) (key fallback : Str)
    → getenv key ≢ []
    → env_str getenv key fallback ≡ getenv key
unfolding env_str
env_str_set getenv key fallback n = kept (getenv key) n
  where
    kept : (v : Str) → v ≢ [] → (if not (str_eq v []) then v else fallback) ≡ v
    kept [] n = absurd (n refl)
    kept (c ∷ v) n = unfold str_eq in refl

-- Where the host is set, and the port is set to the decimal text of a number of 64 bits, the
-- listen address is the one text, a colon, and the other.
pub addr-load :
    (getenv : Str → Str) (parse_duration : Str → Option ℤ) (z : ℤ)
    → getenv (bytes "WINGSTATION_HOST") ≢ []
    → getenv (bytes "WINGSTATION_PORT") ≡ itoa_ℤ z
    → in_range z ≡ true
    → addr (load getenv parse_duration)
      ≡ getenv (bytes "WINGSTATION_HOST") ++ b':' ∷ getenv (bytes "WINGSTATION_PORT")
unfolding addr load
addr-load getenv parse_duration z n e h =
    ap (λ p. env_str getenv (bytes "WINGSTATION_HOST") (bytes "0.0.0.0") ++ b':' ∷ p)
      (ap itoa_ℤ (env_int-itoa_ℤ getenv (bytes "WINGSTATION_PORT") (pos 8080) z e h) ∙ sym e)
    ∙ ap (λ s. s ++ b':' ∷ getenv (bytes "WINGSTATION_PORT"))
        (env_str_set getenv (bytes "WINGSTATION_HOST") (bytes "0.0.0.0") n)

abbrev pub true_spellings : List Str
true_spellings = bytes "1" ∷ bytes "t" ∷ bytes "T" ∷ bytes "TRUE" ∷ bytes "true" ∷ bytes "True" ∷ []

-- What is not one of the spellings of true counts as false.
parsed_any :
    (truth falsity : Bool)
    → elim (if truth then some true else if falsity then some false else none) [
      | none ↦ false
      | some b ↦ b
    ]
      ≡ truth
parsed_any true falsity = refl
parsed_any false true = refl
parsed_any false false = refl

parsed_bool :
    (v : Str)
    → (if not (str_eq v []) then elim (parse_bool v) [ none ↦ false | some b ↦ b ] else false)
      ≡ any (str_eq v) true_spellings
parsed_bool [] = unfold str_eq any in refl
parsed_bool (c ∷ v) = unfold str_eq parse_bool in parsed_any (any (str_eq (c ∷ v)) true_spellings) _

-- Authentication and the terminal are enabled exactly if their variables are one of the six
-- spellings of true that `strconv.ParseBool` takes: any other text, `yes` and `on` among them,
-- leaves both off.
pub load-parse_bool :
    (getenv : Str → Str) (parse_duration : Str → Option ℤ)
    → ((load getenv parse_duration).auth_enabled
        ≡ any (str_eq (getenv (bytes "WINGSTATION_AUTH_ENABLED"))) true_spellings)
      × ((load getenv parse_duration).terminal_enabled
          ≡ any (str_eq (getenv (bytes "WINGSTATION_TERMINAL_ENABLED"))) true_spellings)
unfolding load env_bool
load-parse_bool getenv parse_duration = (
  parsed_bool (getenv (bytes "WINGSTATION_AUTH_ENABLED")),
  parsed_bool (getenv (bytes "WINGSTATION_TERMINAL_ENABLED")),
)
