-- ===== src/Main/Safe.antt =====
-- What the program has when it starts to serve.
use wingstation.Prelude.{
  Str, Bool, true, false, List, ◌≡◌, refl, sym, ◌∙◌, subst, ap, if◌then◌else◌,
}
use wingstation.Go.Result.{Result, ok, ok-injective, err, panic, and_then, and_then-ok}
use wingstation.Cache.{Cache, new}
use wingstation.Config.{Config}
use wingstation.Docker.Client.{new_read_only_client}
use wingstation.Service.Listing.{Cached}
use wingstation.Server.Templates.{parse_templates}
use wingstation.Server.Setup.{Server, wired, new_server}
use wingstation.Main.{Platform, Start, serves, or_exit, exec_made, start}

module _ (p : Platform) where
  -- A start that serves is past what could have ended it.
  or_exit-serves :
      {A : Type 0} (r : Result A) (next : A → Start p) (srv : Server p.set) (c : Cache Cached)
      → or_exit p r next ≡ serves srv c
      → (a : A) × (r ≡ ok a) × (next a ≡ serves srv c)
  or_exit-serves (ok a) next srv c h = (a, refl, h)
  or_exit-serves (err e) next srv c h = cc
  or_exit-serves panic next srv c h = cc

  -- An exec client is made if and only if the terminal is enabled.
  exec_made-terminal : (cfg : Config) (e : Bool) → exec_made p cfg ≡ ok e → e ≡ cfg.terminal_enabled
  exec_made-terminal cfg e h = as_enabled cfg.terminal_enabled _ h
    where
      as_enabled :
          (b : Bool) (r : Result p.client)
          → (if b then and_then r (λ c. ok true) err else ok false) ≡ ok e
          → e ≡ b
      as_enabled true (ok c) h = cc
      as_enabled true (err m) h = cc
      as_enabled true panic h = cc
      as_enabled false r h = cc

  -- What a start that serves has.
  pub record IsServing (cfg : Config) (srv : Server p.set) (c : Cache Cached) : Type 0 where
    pub client : p.client
    pub client_made : new_read_only_client p.sdk cfg.docker_socket ≡ ok client
    pub version : Str
    pub daemon_answers : p.sdk.ping client ≡ ok version
    pub exec_as_configured : exec_made p cfg ≡ ok cfg.terminal_enabled
    pub sets : List (Str × p.set) × p.set
    pub templates_parse :
        parse_templates p.files p.base.unicode p.floats p.engine p.base.runtime cfg.terminal_enabled
        ≡ ok sets
    pub server_wired : srv ≡ wired p.base p.execute p.mux cfg cfg.terminal_enabled sets
    pub cache_is_new : c ≡ new cfg.cache_ttl

  serves-injective :
      (x : Start p) (s t : Server p.set) (c d : Cache Cached)
      → x ≡ serves s c
      → x ≡ serves t d
      → (t ≡ s) × (d ≡ c)
  serves-injective x s t c d g h = (cc, cc)

  -- The program serves only after it has a Docker client, an answer of the daemon, an exec client
  -- if and only if the terminal is enabled, and its templates; the cache is then empty.
  pub start-IsServing :
      (cfg : Config) (srv : Server p.set) (c : Cache Cached)
      → start p cfg ≡ serves srv c
      → IsServing cfg srv c
  unfolding start new_server
  start-IsServing cfg srv c h =
      let (client, made, h1) =
        or_exit-serves (new_read_only_client p.sdk cfg.docker_socket) _ srv c h in
      let (version, pong, h2) = or_exit-serves (p.sdk.ping client) _ srv c h1 in
      let (e, exec, h3) = or_exit-serves (exec_made p cfg) _ srv c h2 in
      let (s, server, h4) =
        or_exit-serves (new_server p.base p.execute p.mux p.files p.floats p.engine cfg e) _ srv c
          h3 in
      let (sets, parsed, h5) =
        and_then-ok
          (parse_templates p.files p.base.unicode p.floats p.engine p.base.runtime
            cfg.terminal_enabled)
          _ _ s server in
      let (same, cache) = serves-injective _ s srv (new cfg.cache_ttl) c refl h4 in
      let enabled = exec_made-terminal cfg e exec in
      record {
        client = client;
        client_made = made;
        version = version;
        daemon_answers = pong;
        exec_as_configured = subst (λ b. exec_made p cfg ≡ ok b) enabled exec;
        sets = sets;
        templates_parse = parsed;
        server_wired =
            same
            ∙ sym (ok-injective _ s h5)
            ∙ ap (λ b. wired p.base p.execute p.mux cfg b sets) enabled;
        cache_is_new = cache;
      }

  -- What holds of every server that `New` wires as configured, and of a new cache, holds after a
  -- start.
  pub on_start :
      (P : Server p.set → Cache Cached → Type 0) (cfg : Config) (srv : Server p.set)
      (c : Cache Cached)
      → start p cfg ≡ serves srv c
      → ((sets : List (Str × p.set) × p.set)
          → P (wired p.base p.execute p.mux cfg cfg.terminal_enabled sets) (new cfg.cache_ttl))
      → P srv c
  on_start P cfg srv c h f =
      let k = start-IsServing cfg srv c h in
      subst (λ t. P t c) (sym k.server_wired) (subst (P _) (sym k.cache_is_new) (f k.sets))
