-- ===== src/Service/Host.antt =====
-- internal/service/host.go: `GetInfo`, on the cache that the services share, and
-- `HostInfoFromAPI` of internal/docker/models.go. The answers of the daemon and the readings of the
-- clock are inputs.
pub mod Laws
use wingstation.Prelude.{
  Str, bytes, Bool, true, List, [], ◌∷◌, ◌++◌, Option, none, some, if◌then◌else◌, ltb, ◌-◌, ◌%◌,
  ◌^◌,
}
use wingstation.Prelude.Int.{ℤ, pos, negsuc, ltb_ℤ, ◌+ℤ◌}
use wingstation.Go.Result.{Result, ok, err, panic, and_then}
use wingstation.Cache.{Cache, get}
use wingstation.Docker.Detail.{HostInfo}
use wingstation.Service.Listing.{Cached, containers_value, detail_value, host_value, store}

abbrev pub host_key : Str
host_key = bytes "hostinfo"

-- `system.Info`
pub record ApiInfo : Type 0 where
  pub name : Str
  pub operating_system : Str
  pub architecture : Str
  pub kernel_version : Str
  pub server_version : Str
  pub mem_total : ℤ
  pub ncpu : ℤ
  pub containers : ℤ
  pub containers_running : ℤ
  pub containers_paused : ℤ
  pub containers_stopped : ℤ
  pub images : ℤ
  pub driver : Str
  pub docker_root_dir : Str

-- `types.DiskUsage`, by the sizes that are read; `none` is a nil pointer on the way to one.
pub record DiskUsage : Type 0 where
  pub images : List (Option ℤ)
  pub containers : List (Option ℤ)
  pub volumes : List (Option ℤ)
  pub build_cache : List (Option ℤ)

-- The inputs of a call: the clock at `Get`, the answers of `Info`, `Ping` (by its version) and
-- `DiskUsage`, and the clock at `Set`.
pub record HostInput : Type 0 where
  pub asked : ℤ
  pub info : Result ApiInfo
  pub ping : Result Str
  pub usage : Result DiskUsage
  pub stored : ℤ

unfoldable pub host_info_from_api : ApiInfo → Str → HostInfo
host_info_from_api info ver = record {
  hostname = info.name;
  os = info.operating_system;
  architecture = info.architecture;
  kernel_version = info.kernel_version;
  docker_version = info.server_version;
  api_version = ver;
  total_memory = info.mem_total;
  cpus = info.ncpu;
  containers_total = info.containers;
  containers_run = info.containers_running;
  containers_pause = info.containers_paused;
  containers_stop = info.containers_stopped;
  images_total = info.images;
  storage_driver = info.driver;
  docker_root_dir = info.docker_root_dir;
  network_drivers = [];
  volume_drivers = [];
  images_size = pos 0;
  containers_size = pos 0;
  volumes_size = pos 0;
  build_cache_size = pos 0;
}

-- A sum of int64 wraps around.
abbrev pub wrap64 : ℤ → ℤ
wrap64 (pos n) =
    if ltb (n % 2 ^ 64) (2 ^ 63) then pos (n % 2 ^ 64) else negsuc (2 ^ 64 - 1 - n % 2 ^ 64)
wrap64 (negsuc n) =
    if ltb (n % 2 ^ 64) (2 ^ 63) then negsuc (n % 2 ^ 64) else pos (2 ^ 64 - 1 - n % 2 ^ 64)

-- A loop over sizes, with its test: a nil pointer panics.
unfoldable pub add_sizes : (ℤ → Bool) → ℤ → List (Option ℤ) → Result ℤ
add_sizes counts total [] = ok total
add_sizes counts total (none ∷ sizes) = panic
add_sizes counts total (some s ∷ sizes) =
    add_sizes counts (if counts s then wrap64 (total +ℤ s) else total) sizes

abbrev pub all_sizes : List (Option ℤ) → Result ℤ
all_sizes = add_sizes (λ s. true) (pos 0)

abbrev pub positive_sizes : List (Option ℤ) → Result ℤ
positive_sizes = add_sizes (ltb_ℤ (pos 0)) (pos 0)

-- The disk usage, which an error leaves at zero.
unfoldable pub with_usage : HostInfo → Result DiskUsage → Result HostInfo
with_usage h (err e) = ok h
with_usage h panic = panic
with_usage h (ok du) =
    and_then (all_sizes du.images)
      (λ is.
        and_then (all_sizes du.containers)
          (λ cs.
            and_then (positive_sizes du.volumes)
              (λ vs.
                and_then (all_sizes du.build_cache)
                  (λ bs. ok (record h {
                    images_size = is;
                    containers_size = cs;
                    volumes_size = vs;
                    build_cache_size = bs;
                  }))
                  err)
              err)
          err)
      err

-- What the daemon's answers become.
unfoldable pub host_answer : HostInput → Result HostInfo
unfolding host_info_from_api with_usage
host_answer i =
    and_then i.info
      (λ info.
        and_then i.ping (λ ver. with_usage (host_info_from_api info ver) i.usage)
          (λ e. err (bytes "pinging docker: " ++ e)))
      (λ e. err (bytes "getting docker info: " ++ e))

-- `cached.(*docker.HostInfo)`
abbrev pub as_host : Cached → Result HostInfo
as_host (containers_value cs) = panic
as_host (detail_value d) = panic
as_host (host_value h) = ok h

-- `GetInfo`
unfoldable pub get_info : Cache Cached → HostInput → Result HostInfo × Cache Cached
unfolding store host_answer
get_info c i = elim (get c i.asked host_key) [
  | some v ↦ (as_host v, c)
  | none ↦ store c i.stored host_key host_value (host_answer i)
]

-- The last part of `GetInfo`, on the cache as it is when the daemon has answered: between its `Get`
-- and its `Set`, `GetInfo` holds no lock.
unfoldable pub finish_info : Cache Cached → HostInput → Result HostInfo × Cache Cached
unfolding store host_answer
finish_info c i = store c i.stored host_key host_value (host_answer i)
