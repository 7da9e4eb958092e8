-- ===== src/Server/Helpers.antt =====
-- internal/server/server.go: the functions that the templates call.
pub mod Mask
pub mod Uptime
use Prim.Native.Nat.{ℕ, zero, suc, ◌-◌, ◌/◌, ◌%◌, ◌^◌}
use wingstation.Prelude.{
  Str, bytes, str_eq, Bool, not, ◌||◌, List, [], ◌∷◌, ◌++◌, if◌then◌else◌, length, take, drop,
  replicate, any, leb, ltb,
}
use wingstation.Prelude.Int.{ℤ, pos, negsuc, ltb_ℤ, ◌==ℤ◌}
use wingstation.Go.Strings.{Unicode, has_prefix, contains, to_lower, join}
use wingstation.Go.Strconv.{itoa_ℤ}
use wingstation.Docker.Ports.{PortMapping}

abbrev pub sensitive_keys : List Str
sensitive_keys =
    bytes "password"
    ∷ bytes "passwd"
    ∷ bytes "secret"
    ∷ bytes "token"
    ∷ bytes "key"
    ∷ bytes "apikey"
    ∷ bytes "api_key"
    ∷ bytes "auth"
    ∷ bytes "credential"
    ∷ bytes "private"
    ∷ []

unfoldable pub is_sensitive_key : Unicode → Str → Bool
is_sensitive_key u key = any (contains (to_lower u key)) sensitive_keys

abbrev pub star : ℕ
star = b'*'

unfoldable pub mask_value : Unicode → Str → Str → Str
unfolding is_sensitive_key
mask_value u key value =
    if is_sensitive_key u key
    then if leb (length value) 4
      then bytes "****"
      else take 2 value ++ (replicate (length value - 4) star ++ drop (length value - 2) value)
    else value

abbrev pub sensitive_paths : List Str
sensitive_paths =
    bytes "/var/run/docker.sock"
    ∷ bytes "/etc/shadow"
    ∷ bytes "/etc/passwd"
    ∷ bytes "/root"
    ∷ bytes "/proc"
    ∷ bytes "/sys"
    ∷ []

unfoldable pub is_sensitive_path : Str → Bool
is_sensitive_path path = any (has_prefix path) sensitive_paths

unfoldable pub status_color : Str → Str
status_color state =
    if str_eq state (bytes "running")
    then bytes "bg-green-500"
    else if str_eq state (bytes "paused")
    then bytes "bg-yellow-500"
    else if str_eq state (bytes "restarting")
    then bytes "bg-blue-500"
    else if str_eq state (bytes "exited") || str_eq state (bytes "dead")
    then bytes "bg-red-500"
    else if str_eq state (bytes "created")
    then bytes "bg-gray-400"
    else bytes "bg-gray-400"

abbrev pub join_strings : List Str → Str → Str
join_strings strs sep = join sep strs

-- `ports[:n]` where there are more; a negative `n` is then out of range, which is a panic. The
-- templates call it with 3.
unfoldable pub first_n : List PortMapping → ℕ → List PortMapping
first_n ports n = if leb (length ports) n then ports else take n ports

-- What package time and package fmt do with floating point numbers: `int(d.Hours())` and
-- `int(d.Minutes())` of a duration in nanoseconds, the verbs `%.1f` and `%.2f` of
-- `float64(b) / float64(u)`, the number 0, and `float64(a) / float64(b) * 100`.
pub record Floats : Type 1 where
  pub float : Type 0
  pub hours : ℤ → ℤ
  pub minutes : ℤ → ℤ
  pub one_decimal : ℤ → ℕ → Str
  pub two_decimals : ℤ → ℕ → Str
  pub nothing : float
  pub percent : ℤ → ℤ → float

abbrev minus : ℕ → ℤ
minus zero = pos 0
minus (suc n) = negsuc n

-- Division and remainder of int truncate towards zero.
abbrev pub quot : ℤ → ℕ → ℤ
quot (pos a) b = pos (a / b)
quot (negsuc a) b = minus (suc a / b)

abbrev pub rem : ℤ → ℕ → ℤ
rem (pos a) b = pos (a % b)
rem (negsuc a) b = minus (suc a % b)

unfoldable pub format_uptime : Floats → ℤ → Str
format_uptime f d =
    let days = quot (f.hours d) 24 in
    let hours = rem (f.hours d) 24 in
    let mins = rem (f.minutes d) 60 in
    if ltb_ℤ (pos 0) days
    then itoa_ℤ days ++ (bytes "d " ++ (itoa_ℤ hours ++ bytes "h"))
    else if ltb_ℤ (pos 0) hours
    then itoa_ℤ hours ++ (bytes "h " ++ (itoa_ℤ mins ++ bytes "m"))
    else itoa_ℤ mins ++ bytes "m"

unfoldable pub format_bytes : Floats → ℤ → Str
format_bytes f b =
    if not (ltb_ℤ b (pos (2 ^ 40)))
    then f.one_decimal b (2 ^ 40) ++ bytes " TB"
    else if not (ltb_ℤ b (pos (2 ^ 30)))
    then f.one_decimal b (2 ^ 30) ++ bytes " GB"
    else if not (ltb_ℤ b (pos (2 ^ 20)))
    then f.one_decimal b (2 ^ 20) ++ bytes " MB"
    else if not (ltb_ℤ b (pos (2 ^ 10)))
    then f.one_decimal b (2 ^ 10) ++ bytes " KB"
    else itoa_ℤ b ++ bytes " B"

unfoldable pub format_nano_cpu : Floats → ℤ → Str
format_nano_cpu f n = f.two_decimals n 1_000_000_000

unfoldable pub percentage : (f : Floats) → ℤ → ℤ → f.float
percentage f a b = if b ==ℤ pos 0 then f.nothing else f.percent a b
