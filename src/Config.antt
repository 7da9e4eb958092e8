-- ===== src/Config.antt =====
-- internal/config/config.go: the configuration, read from the environment. `os.Getenv` and
-- `time.ParseDuration` are parameters; a duration is in nanoseconds.
pub mod Laws
use wingstation.Prelude.{
  Str, bytes, str_eq, Bool, true, false, not, [], ◌∷◌, ◌++◌, Option, none, some, if◌then◌else◌,
}
use wingstation.Prelude.Int.{ℤ, pos}
use wingstation.Go.Strconv.{atoi, parse_bool, itoa_ℤ}

pub record Config : Type 0 where
  pub port : ℤ
  pub host : Str
  pub base_url : Str
  pub docker_socket : Str
  pub auth_enabled : Bool
  pub auth_user : Str
  pub auth_pass : Str
  pub cache_ttl : ℤ
  pub sse_enabled : Bool
  pub sse_retry_ms : ℤ
  pub stats_interval_ms : ℤ
  pub terminal_enabled : Bool
  pub log_level : Str

-- `fmt.Sprintf("%s:%d", …)`
unfoldable pub addr : Config → Str
addr c = c.host ++ b':' ∷ itoa_ℤ c.port

module _ (getenv : Str → Str) where
  unfoldable pub env_str : Str → Str → Str
  env_str key fallback = let v = getenv key in if not (str_eq v []) then v else fallback

  unfoldable pub env_int : Str → ℤ → ℤ
  env_int key fallback =
      let v = getenv key in
      if not (str_eq v []) then elim (atoi v) [ none ↦ fallback | some n ↦ n ] else fallback

  unfoldable pub env_bool : Str → Bool → Bool
  env_bool key fallback =
      let v = getenv key in
      if not (str_eq v []) then elim (parse_bool v) [ none ↦ fallback | some b ↦ b ] else fallback

  module _ (parse_duration : Str → Option ℤ) where
    unfoldable pub env_duration : Str → ℤ → ℤ
    env_duration key fallback =
        let v = getenv key in
        if not (str_eq v [])
        then elim (parse_duration v) [ none ↦ fallback | some d ↦ d ]
        else fallback

    -- `Load`
    unfoldable pub load : Config
    unfolding env_str env_int env_bool env_duration
    load = record {
      port = env_int (bytes "WINGSTATION_PORT") (pos 8080);
      host = env_str (bytes "WINGSTATION_HOST") (bytes "0.0.0.0");
      base_url = env_str (bytes "WINGSTATION_BASE_URL") [];
      docker_socket = env_str (bytes "WINGSTATION_DOCKER_SOCKET") (bytes "/var/run/docker.sock");
      auth_enabled = env_bool (bytes "WINGSTATION_AUTH_ENABLED") false;
      auth_user = env_str (bytes "WINGSTATION_AUTH_USER") [];
      auth_pass = env_str (bytes "WINGSTATION_AUTH_PASS") [];
      cache_ttl = env_duration (bytes "WINGSTATION_CACHE_TTL") (pos 5_000_000_000);
      sse_enabled = env_bool (bytes "WINGSTATION_SSE_ENABLED") true;
      sse_retry_ms = env_int (bytes "WINGSTATION_SSE_RETRY_MS") (pos 3000);
      stats_interval_ms = env_int (bytes "WINGSTATION_STATS_INTERVAL_MS") (pos 5000);
      terminal_enabled = env_bool (bytes "WINGSTATION_TERMINAL_ENABLED") false;
      log_level = env_str (bytes "WINGSTATION_LOG_LEVEL") (bytes "info");
    }
