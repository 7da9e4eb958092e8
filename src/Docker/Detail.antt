-- ===== src/Docker/Detail.antt =====
-- internal/docker/models.go: what the detail panel and the host page show.
use wingstation.Prelude.{Str, Bool, List}
use wingstation.Prelude.Int.{ℤ}
use wingstation.Docker.Models.{Container}

pub record EnvVar : Type 0 where
  pub key : Str
  pub value : Str

pub record NetworkAttachment : Type 0 where
  pub name : Str
  pub network_id : Str
  pub ip_address : Str
  pub gateway : Str
  pub mac_addr : Str

pub record MountDetail : Type 0 where
  pub kind : Str
  pub source : Str
  pub destination : Str
  pub read_only : Bool
  pub driver : Str
  pub propagation : Str

pub record DeviceMapping : Type 0 where
  pub host : Str
  pub container : Str
  pub perms : Str

-- The embedded `Container` is a field.
pub record ContainerDetail : Type 0 where
  pub base : Container
  pub full_id : Str
  pub image_id : Str
  pub restart_policy : Str
  pub restart_count : ℤ
  pub platform : Str
  pub driver : Str
  pub entrypoint : List Str
  pub command : List Str
  pub working_dir : Str
  pub env_vars : List EnvVar
  pub hostname : Str
  pub domainname : Str
  pub dns_servers : List Str
  pub dns_search : List Str
  pub network_mode : Str
  pub networks : List NetworkAttachment
  pub extra_hosts : List Str
  pub mounts : List MountDetail
  pub privileged : Bool
  pub read_only_root : Bool
  pub user : Str
  pub cap_add : List Str
  pub cap_drop : List Str
  pub app_armor : Str
  pub seccomp : Str
  pub cgroup_parent : Str
  pub pid_mode : Str
  pub ipc_mode : Str
  pub cpu_shares : ℤ
  pub cpu_quota : ℤ
  pub cpu_period : ℤ
  pub cpu_set_cpus : Str
  pub memory_limit : ℤ
  pub memory_swap : ℤ
  pub nano_cpus : ℤ
  pub gpus : Str
  pub devices : List DeviceMapping
  pub health_check : Str
  pub health_status : Str
  pub health_retries : ℤ
  pub repo_url : Str

pub record HostInfo : Type 0 where
  pub hostname : Str
  pub os : Str
  pub architecture : Str
  pub kernel_version : Str
  pub docker_version : Str
  pub api_version : Str
  pub total_memory : ℤ
  pub cpus : ℤ
  pub containers_total : ℤ
  pub containers_run : ℤ
  pub containers_pause : ℤ
  pub containers_stop : ℤ
  pub images_total : ℤ
  pub storage_driver : Str
  pub docker_root_dir : Str
  pub network_drivers : List Str
  pub volume_drivers : List Str
  pub images_size : ℤ
  pub containers_size : ℤ
  pub volumes_size : ℤ
  pub build_cache_size : ℤ
