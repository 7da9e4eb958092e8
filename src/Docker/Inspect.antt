-- ===== src/Docker/Inspect.antt =====
-- The records of the Docker API that an inspection returns, with the fields that the program
-- reads. A pointer is an option.
use wingstation.Prelude.{Str, Bool, List, Option, false, []}
use wingstation.Prelude.Int.{ℤ, pos}

-- `types.ContainerState`; `health` is the status of `Health`.
pub record InspectState : Type 0 where
  pub status : Str
  pub health : Option Str

-- `container.DeviceMapping`
pub record HostDevice : Type 0 where
  pub path_on_host : Str
  pub path_in_container : Str
  pub cgroup_permissions : Str

pub record DeviceRequest : Type 0 where
  pub driver : Str
  pub count : ℤ
  pub capabilities : List (List Str)

pub record HostConfig : Type 0 where
  pub restart_policy_name : Str
  pub dns : List Str
  pub dns_search : List Str
  pub network_mode : Str
  pub extra_hosts : List Str
  pub privileged : Bool
  pub readonly_rootfs : Bool
  pub cap_add : List Str
  pub cap_drop : List Str
  pub cgroup_parent : Str
  pub pid_mode : Str
  pub ipc_mode : Str
  pub security_opt : List Str
  pub cpu_shares : ℤ
  pub cpu_quota : ℤ
  pub cpu_period : ℤ
  pub cpuset_cpus : Str
  pub memory : ℤ
  pub memory_swap : ℤ
  pub nano_cpus : ℤ
  pub devices : List HostDevice
  pub device_requests : List DeviceRequest

-- The zero value.
abbrev pub zero_host_config : HostConfig
zero_host_config = record {
  restart_policy_name = [];
  dns = [];
  dns_search = [];
  network_mode = [];
  extra_hosts = [];
  privileged = false;
  readonly_rootfs = false;
  cap_add = [];
  cap_drop = [];
  cgroup_parent = [];
  pid_mode = [];
  ipc_mode = [];
  security_opt = [];
  cpu_shares = pos 0;
  cpu_quota = pos 0;
  cpu_period = pos 0;
  cpuset_cpus = [];
  memory = pos 0;
  memory_swap = pos 0;
  nano_cpus = pos 0;
  devices = [];
  device_requests = [];
}

-- `container.HealthConfig`
pub record HealthConfig : Type 0 where
  pub test : List Str
  pub retries : ℤ

-- `container.Config`
pub record ContainerConfig : Type 0 where
  pub hostname : Str
  pub domainname : Str
  pub user : Str
  pub image : Str
  pub env : List Str
  pub cmd : List Str
  pub entrypoint : List Str
  pub working_dir : Str
  pub labels : List (Str × Str)
  pub healthcheck : Option HealthConfig

-- `network.EndpointSettings`
pub record Endpoint : Type 0 where
  pub network_id : Str
  pub ip_address : Str
  pub gateway : Str
  pub mac_address : Str

pub record PortBinding : Type 0 where
  pub host_ip : Str
  pub host_port : Str

-- `types.NetworkSettings`, its maps in the order of one visit
pub record NetworkSettings : Type 0 where
  pub networks : List (Str × Option Endpoint)
  pub ports : List (Str × List PortBinding)

pub record MountPoint : Type 0 where
  pub kind : Str
  pub source : Str
  pub destination : Str
  pub rw : Bool
  pub driver : Str
  pub propagation : Str

-- `types.ContainerJSONBase`
pub record InspectBase : Type 0 where
  pub id : Str
  pub name : Str
  pub image : Str
  pub state : Option InspectState
  pub restart_count : ℤ
  pub platform : Str
  pub driver : Str
  pub host_config : Option HostConfig

-- `types.ContainerJSON`
pub record InspectResponse : Type 0 where
  pub base : Option InspectBase
  pub mounts : List MountPoint
  pub config : Option ContainerConfig
  pub network_settings : Option NetworkSettings
