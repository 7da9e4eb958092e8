-- ===== src/Docker/Models.antt =====
-- internal/docker/models.go: what the dashboard shows. Records of the Docker API hold the fields
-- that the program reads.
use Prim.Native.Nat.{◌+◌, ◌-◌, ◌*◌, ◌^◌}
use wingstation.Prelude.{Str, bytes, str_eq, List, [], ◌∷◌, if◌then◌else◌, length, take, ltb}
use wingstation.Prelude.Int.{ℤ, pos, negsuc, ◌-ℤ◌}
use wingstation.Go.Strings.{Unicode, trim_prefix}
use wingstation.Go.Result.{Result, ok, panic}
use wingstation.Docker.Labels.{WingStationLabels, parse_labels}
use wingstation.Docker.Ports.{PortMapping, ApiPort, port_mappings}

-- Times and durations are in nanoseconds.
pub record Container : Type 0 where
  pub id : Str
  pub short_id : Str
  pub name : Str
  pub image : Str
  pub state : Str
  pub status : Str
  pub created : ℤ
  pub uptime : ℤ
  pub ports : List PortMapping
  pub labels : WingStationLabels
  pub all_labels : List (Str × Str)

pub record ContainerGroup : Type 0 where
  pub name : Str
  pub icon : Str
  pub priority : ℤ
  pub containers : List Container

-- `types.Container`; `created` is in seconds.
pub record ApiContainer : Type 0 where
  pub id : Str
  pub names : List Str
  pub image : Str
  pub state : Str
  pub status : Str
  pub created : ℤ
  pub ports : List ApiPort
  pub labels : List (Str × Str)

abbrev first_name : List Str → Str
first_name [] = []
first_name (n ∷ ns) = trim_prefix n (bytes "/")

-- `time.Unix(s, 0)` in nanoseconds
abbrev pub seconds : ℤ → ℤ
seconds (pos n) = pos (n * 1_000_000_000)
seconds (negsuc n) = negsuc (n * 1_000_000_000 + 999_999_999)

-- A difference of times saturates at the bounds of int64.
abbrev pub saturate : ℤ → ℤ
saturate (pos n) = if ltb n (2 ^ 63) then pos n else pos (2 ^ 63 - 1)
saturate (negsuc n) = if ltb n (2 ^ 63) then negsuc n else negsuc (2 ^ 63 - 1)

-- `ContainerFromAPI`, with the reading of the clock that `time.Since` makes. The slice
-- `c.ID[:12]` panics on a shorter text.
unfoldable pub container_from_api : Unicode → ℤ → ApiContainer → Result Container
container_from_api u now c =
    if ltb (length c.id) 12
    then panic
    else ok (record {
      id = c.id;
      short_id = take 12 c.id;
      name = first_name c.names;
      image = c.image;
      state = c.state;
      status = c.status;
      created = seconds c.created;
      uptime =
          if str_eq c.state (bytes "running") then saturate (now -ℤ seconds c.created) else pos 0;
      ports = port_mappings [] c.ports;
      labels = parse_labels u c.labels;
      all_labels = c.labels;
    })
