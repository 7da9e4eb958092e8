-- ===== src/Service/Detail/Parts.antt =====
-- internal/service/container.go: what `containerDetailFromInspect` makes of the parts of an
-- inspection.
use mathlib.Core.List.{foldl}
use wingstation.Prelude.{
  Str, bytes, str_eq, Bool, not, ◌||◌, List, [], ◌∷◌, ◌++◌, Option, none, some, if◌then◌else◌, map,
  any,
}
use wingstation.Prelude.Int.{ℤ, pos}
use wingstation.Go.Strings.{has_prefix, trim_prefix, split_n, join}
use wingstation.Go.Strconv.{itoa_ℤ}
use wingstation.Go.Result.{Result, ok, panic, err, and_then}
use wingstation.Docker.Ports.{PortMapping}
use wingstation.Docker.Detail.{EnvVar, NetworkAttachment, MountDetail, DeviceMapping}
use wingstation.Docker.Inspect.{
  HostDevice, DeviceRequest, HostConfig, zero_host_config, HealthConfig, Endpoint, PortBinding,
  NetworkSettings, MountPoint,
}

-- Split has at least one part.
abbrev pub env_parts : List Str → EnvVar
env_parts [] = record { key = []; value = [] }
env_parts (k ∷ []) = record { key = k; value = [] }
env_parts (k ∷ v ∷ rest) = record { key = k; value = v }

-- One round of the loop over the environment.
unfoldable pub env_var : Str → EnvVar
env_var e = env_parts (split_n b'=' 1 e)

-- The loop over the networks: a nil endpoint panics.
unfoldable pub attachments : List (Str × Option Endpoint) → Result (List NetworkAttachment)
attachments [] = ok []
attachments ((name, none) ∷ nets) = panic
attachments ((name, some net) ∷ nets) =
    and_then (attachments nets)
      (λ rest. ok (
        record {
          name = name;
          network_id = net.network_id;
          ip_address = net.ip_address;
          gateway = net.gateway;
          mac_addr = net.mac_address;
        }
        ∷ rest))
      err

abbrev pub bound_port : (Str → Str) → Str → PortBinding → PortMapping
bound_port proto port b = record {
  container_port = port;
  host_port = b.host_port;
  protocol = proto port;
  host_ip = b.host_ip;
}

-- The mappings of one port: one for each binding, and one without a host port if there is none.
-- `nat.Port.Proto` is a parameter.
unfoldable pub port_bindings : (Str → Str) → Str × List PortBinding → List PortMapping
port_bindings proto (port, []) =
    record { container_port = port; host_port = []; protocol = proto port; host_ip = [] } ∷ []
port_bindings proto (port, b ∷ bs) = map (bound_port proto port) (b ∷ bs)

-- The loop over the ports.
unfoldable pub inspect_ports : (Str → Str) → List (Str × List PortBinding) → List PortMapping
unfolding port_bindings
inspect_ports proto [] = []
inspect_ports proto (p ∷ ps) = port_bindings proto p ++ inspect_ports proto ps

abbrev pub mount_detail : MountPoint → MountDetail
mount_detail m = record {
  kind = m.kind;
  source = m.source;
  destination = m.destination;
  read_only = not m.rw;
  driver = m.driver;
  propagation = m.propagation;
}

-- The option's value if it has the prefix, and the value at hand otherwise.
unfoldable pub option_or : Str → Str → Str → Str
option_or key old opt = if has_prefix opt key then trim_prefix opt key else old

-- The loop over the security options, for one of the two keys.
unfoldable pub security_option : Str → List Str → Str
unfolding option_or
security_option key = foldl (option_or key) []

abbrev pub device_mapping : HostDevice → DeviceMapping
device_mapping d = record {
  host = d.path_on_host;
  container = d.path_in_container;
  perms = d.cgroup_permissions;
}

unfoldable pub contains_gpu : List (List Str) → Bool
contains_gpu caps = any (any (λ c. str_eq c (bytes "gpu"))) caps

abbrev pub asks_gpu : DeviceRequest → Bool
asks_gpu req = str_eq req.driver (bytes "nvidia") || contains_gpu req.capabilities

-- The loop over the device requests, left at the first that asks for a GPU.
unfoldable pub gpus_text : List DeviceRequest → Str
gpus_text [] = []
gpus_text (req ∷ reqs) = if asks_gpu req then bytes "count=" ++ itoa_ℤ req.count else gpus_text reqs

-- Fields behind a nil pointer keep their zero value.
abbrev pub settings : Option HostConfig → HostConfig
settings none = zero_host_config
settings (some h) = h

abbrev pub network_settings : Option NetworkSettings → NetworkSettings
network_settings none = record { networks = []; ports = [] }
network_settings (some n) = n

abbrev pub health_test : Option HealthConfig → Str
health_test none = []
health_test (some h) = join (bytes " ") h.test

abbrev pub health_retries : Option HealthConfig → ℤ
health_retries none = pos 0
health_retries (some h) = h.retries

abbrev pub health_status : Option Str → Str
health_status none = []
health_status (some s) = s
