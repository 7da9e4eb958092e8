-- ===== src/Server/Funcs.antt =====
-- internal/server/server.go: `buildFuncMap`, the functions that the templates can call, by name.
use wingstation.Prelude.{Str, bytes, Bool, List, [], ◌∷◌, ℕ}
use wingstation.Prelude.Int.{ℤ, ◌-ℤ◌}
use wingstation.Go.Strings.{Unicode}
use wingstation.Docker.Ports.{PortMapping}
use wingstation.Service.Host.{wrap64}
use wingstation.Server.Helpers.{
  Floats, format_uptime, format_bytes, format_nano_cpu, mask_value, is_sensitive_key,
  is_sensitive_path, status_color, join_strings, percentage, first_n,
}

-- The functions, by their types in Go.
pub data TemplateFunc (F : Type 0) : Type 0 where
  int64_text : (ℤ → Str) → TemplateFunc F
  pair_text : (Str → Str → Str) → TemplateFunc F
  text_test : (Str → Bool) → TemplateFunc F
  text_text : (Str → Str) → TemplateFunc F
  list_text : (List Str → Str → Str) → TemplateFunc F
  int64_float : (ℤ → ℤ → F) → TemplateFunc F
  some_ports : (List PortMapping → ℕ → List PortMapping) → TemplateFunc F
  int_int : (ℤ → ℤ → ℤ) → TemplateFunc F
  flag : Bool → TemplateFunc F

-- `buildFuncMap`
unfoldable pub build_func_map : Unicode → (f : Floats) → Bool → List (Str × TemplateFunc f.float)
unfolding format_uptime format_bytes format_nano_cpu mask_value is_sensitive_key is_sensitive_path
    status_color percentage first_n
build_func_map u f terminal_enabled =
    (bytes "formatUptime", int64_text (format_uptime f))
    ∷ (bytes "formatBytes", int64_text (format_bytes f))
    ∷ (bytes "formatNanoCPU", int64_text (format_nano_cpu f))
    ∷ (bytes "maskValue", pair_text (mask_value u))
    ∷ (bytes "isSensitiveKey", text_test (is_sensitive_key u))
    ∷ (bytes "isSensitivePath", text_test is_sensitive_path)
    ∷ (bytes "statusColor", text_text status_color)
    ∷ (bytes "joinStrings", list_text join_strings)
    ∷ (bytes "percentage", int64_float (percentage f))
    ∷ (bytes "firstN", some_ports first_n)
    ∷ (bytes "sub", int_int (λ a b. wrap64 (a -ℤ b)))
    ∷ (bytes "terminalEnabled", flag terminal_enabled)
    ∷ []
