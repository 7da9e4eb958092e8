-- ===== src/Server/Site.antt =====
-- internal/server/server.go: the fields of `Server` that the handlers read, and what they render.
-- The templates (html/template), encoding/json and the package `nat` are parameters.
use wingstation.Prelude.{Str, Bool, List, [], Option, none}
use wingstation.Go.Strings.{Unicode}
use wingstation.Go.Runtime.{Runtime}
use wingstation.Go.Result.{Result}
use wingstation.Docker.Models.{Container, ContainerGroup}
use wingstation.Docker.Detail.{ContainerDetail, HostInfo}
use wingstation.Service.Listing.{ListInput, InspectInput}
use wingstation.Service.Host.{HostInput}
use wingstation.Server.Stream.{Got}
use wingstation.Server.Terminal.{TerminalAnswers}
use wingstation.Server.Terminal.Session.{ResizeMessage}

-- `none` is a nil interface.
pub record PageData : Type 0 where
  pub title : Str
  pub page : Str
  pub groups : Option (List ContainerGroup)
  pub host : Option HostInfo
  pub error : Str

abbrev pub no_data : PageData
no_data = record { title = []; page = []; groups = none; host = none; error = [] }

-- What a partial is rendered with.
pub data PartialData : Type 0 where
  page_data : PageData → PartialData
  detail_data : ContainerDetail → PartialData

-- What is encoded as JSON.
pub data Payload : Type 0 where
  containers_json : List Container → Payload
  detail_json : ContainerDetail → Payload
  host_json : HostInfo → Payload
  fields_json : List (Str × Str) → Payload

-- To execute a template writes some chunks, and then may fail. `pages` is the map of that name,
-- each template with its base layout.
pub record Site : Type 1 where
  pub runtime : Runtime
  pub unicode : Unicode
  pub proto : Str → Str
  pub pages : Str → Option (PageData → List Str × Bool)
  pub partials : Str → PartialData → List Str × Bool
  pub encode : Payload → Option Str
  pub parse_resize : Str → Option ResizeMessage

-- What the Docker daemon and the clock answer during a request.
pub record Answers : Type 0 where
  pub list : ListInput
  pub inspection : InspectInput
  pub host : HostInput
  pub ping : Result Str
  pub streamed : List Got
  pub terminal : TerminalAnswers
