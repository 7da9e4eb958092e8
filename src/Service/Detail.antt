-- ===== src/Service/Detail.antt =====
-- internal/service/container.go: `containerDetailFromInspect`.
pub mod Parts
pub mod Laws
use mathlib.Core.List.{foldl}
use wingstation.Prelude.{
  Str, bytes, str_eq, Bool, not, ◌||◌, List, [], ◌∷◌, ◌++◌, Option, none, some, if◌then◌else◌,
  length, take, ltb, map, any,
}
use wingstation.Prelude.Int.{ℤ, pos, negsuc}
use wingstation.Go.Strings.{Unicode, has_prefix, trim_prefix, split_n, join}
use wingstation.Go.Strconv.{itoa_ℤ}
use wingstation.Go.Result.{Result, ok, panic, err, and_then}
use wingstation.Docker.Labels.{parse_labels}
use wingstation.Docker.Repo.{infer_repo_url}
use wingstation.Docker.Ports.{PortMapping}
use wingstation.Docker.Models.{Container}
use wingstation.Docker.Detail.{
  EnvVar, NetworkAttachment, MountDetail, DeviceMapping, ContainerDetail,
}
use wingstation.Docker.Inspect.{
  InspectState, HostDevice, DeviceRequest, HostConfig, zero_host_config, HealthConfig,
  ContainerConfig, Endpoint, PortBinding, NetworkSettings, MountPoint, InspectBase, InspectResponse,
}
use wingstation.Service.Detail.Parts.{
  env_parts, env_var, attachments, bound_port, port_bindings, inspect_ports, mount_detail,
  option_or, security_option, device_mapping, contains_gpu, asks_gpu, gpus_text, settings,
  network_settings, health_test, health_retries, health_status,
}

-- The zero `time.Time`, the first of January of the year 1, in nanoseconds since 1970.
abbrev pub zero_time : ℤ
zero_time = negsuc 62_135_596_799_999_999_999

-- What is set in the embedded `Container`.
unfoldable pub detail_base :
    Unicode
    → (Str → Str)
    → InspectBase
    → ContainerConfig
    → InspectState
    → NetworkSettings
    → Container
detail_base u proto b cfg st net = record {
  id = [];
  short_id = take 12 b.id;
  name = trim_prefix b.name (bytes "/");
  image = cfg.image;
  state = st.status;
  status = st.status;
  created = zero_time;
  uptime = pos 0;
  ports = inspect_ports proto net.ports;
  labels = parse_labels u cfg.labels;
  all_labels = cfg.labels;
}

-- The whole detail, from the parts that are not nil.
unfoldable pub detail_of :
    Unicode
    → (Str → Str)
    → InspectBase
    → ContainerConfig
    → InspectState
    → NetworkSettings
    → List MountPoint
    → List NetworkAttachment
    → ContainerDetail
unfolding detail_base
detail_of u proto b cfg st net mounts nets =
    let host = settings b.host_config in
    record {
      base = detail_base u proto b cfg st net;
      full_id = b.id;
      image_id = b.image;
      restart_policy = host.restart_policy_name;
      restart_count = b.restart_count;
      platform = b.platform;
      driver = b.driver;
      entrypoint = cfg.entrypoint;
      command = cfg.cmd;
      working_dir = cfg.working_dir;
      env_vars = map env_var cfg.env;
      hostname = cfg.hostname;
      domainname = cfg.domainname;
      dns_servers = host.dns;
      dns_search = host.dns_search;
      network_mode = host.network_mode;
      networks = nets;
      extra_hosts = host.extra_hosts;
      mounts = map mount_detail mounts;
      privileged = host.privileged;
      read_only_root = host.readonly_rootfs;
      user = cfg.user;
      cap_add = host.cap_add;
      cap_drop = host.cap_drop;
      app_armor = security_option (bytes "apparmor=") host.security_opt;
      seccomp = security_option (bytes "seccomp=") host.security_opt;
      cgroup_parent = host.cgroup_parent;
      pid_mode = host.pid_mode;
      ipc_mode = host.ipc_mode;
      cpu_shares = host.cpu_shares;
      cpu_quota = host.cpu_quota;
      cpu_period = host.cpu_period;
      cpu_set_cpus = host.cpuset_cpus;
      memory_limit = host.memory;
      memory_swap = host.memory_swap;
      nano_cpus = host.nano_cpus;
      gpus = gpus_text host.device_requests;
      devices = map device_mapping host.devices;
      health_check = health_test cfg.healthcheck;
      health_status = health_status st.health;
      health_retries = health_retries cfg.healthcheck;
      repo_url = infer_repo_url cfg.labels cfg.image;
    }

-- What the parts are read from: the code dereferences the embedded base, the configuration and
-- the state before it tests the last two for nil, and slices the id.
unfoldable pub detail_from_inspect :
    Unicode → (Str → Str) → InspectResponse → Result ContainerDetail
unfolding detail_of
detail_from_inspect u proto raw = elim raw.base [
  | none ↦ panic
  | some b ↦ elim raw.config [
    | none ↦ panic
    | some cfg ↦ elim b.state [
      | none ↦ panic
      | some st ↦
          let net = network_settings raw.network_settings in
          if ltb (length b.id) 12
          then panic
          else and_then (attachments net.networks)
              (λ nets. ok (detail_of u proto b cfg st net raw.mounts nets)) err
    ]
  ]
]
