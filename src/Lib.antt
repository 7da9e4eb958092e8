-- ===== src/Lib.antt =====
-- WingStation: a read-only dashboard for the containers of a Docker host (Go).
--
-- The program asks the Docker daemon for its containers, keeps the answers in a cache with a time
-- to live, reads the `wingstation.*` labels of each container, groups, filters and sorts what it
-- shows, pushes updates to the browsers as server-sent events, and offers a terminal where that is
-- enabled. This library models these parts, with theorems about them.
--
-- The parts, by file:
-- - Prelude: shared names, Boolean tests, lists, text as lists of bytes, signed integers.
-- - Go/Strings, Go/Strconv, Go/Map, Go/Result: what the program uses of the Go library. Maps are
--   association lists in one order of iteration; a call ends with a value, an error or a panic.
--   Text beyond ASCII goes to the tables of package unicode, a parameter (`Unicode`).
-- - Go/Runtime: `sort.Slice` and the order of `range` over a map, parameters with their documented
--   laws (`Runtime`); Go/Runtime/Insertion has two instances.
-- - Docker/Labels, Docker/Repo (internal/docker/labels.go): `ParseLabels` and the methods of
--   `WingStationLabels`; `InferRepoURL`, its heuristics one definition each.
-- - Docker/Ports, Docker/Models, Docker/Detail (internal/docker/models.go): the domain types and
--   `ContainerFromAPI`. Times are nanoseconds; the slice of an id that is too short panics.
-- - Docker/Inspect: the fields that the program reads of the Docker API's inspection.
-- - Docker/Client (internal/docker/client.go, internal/docker/exec.go): the two clients, over the
--   Docker SDK as a parameter, and the kinds of calls that go through the read-only one.
-- - Cache (internal/cache/cache.go): the state is the entries, the time to live and whether the
--   cache is stopped; `get`, `set`, `invalidate`, `invalidate_all`, `stop` and the `cleanup`
--   goroutine are steps on it, with the clock readings as inputs.
-- - Config (internal/config/config.go): `Load`, `Addr` and the env helpers, with `os.Getenv` and
--   `time.ParseDuration` as parameters.
-- - Service/Groups, Service/Search (internal/service/container.go): `ListGrouped` and `Search`
--   from the listed containers on.
-- - Service/Listing: `List`, `ListGrouped`, `Search`, `Inspect` and `InvalidateCache` on the cache
--   that the services share. A cached value is one of three kinds, and a type assertion on another
--   kind panics. Service/Listing/Reach is the relation of the runs of the cache.
-- - Service/Detail, Service/Detail/Parts: `containerDetailFromInspect`, with the panics of its nil
--   pointers.
-- - Service/Host (internal/service/host.go): `GetInfo` on the same cache, and `HostInfoFromAPI` of
--   internal/docker/models.go.
-- - Service/Asked: what the services ask of the daemon, by the state of the cache.
-- - Server/Events, Server/Broker (internal/server/sse.go): the text of an event, and the broker with
--   its buffered channels. Server/Events/Decode is the browser's side, after the HTML standard.
--   Server/Broker/Reach is the relation of the runs of the broker, Server/Broker/Fifo that of the
--   runs that one stream sees.
-- - Server/Http: a request, and the calls that a handler makes on its ResponseWriter. A reply is the
--   list of these calls, and whether a panic ended the handler.
-- - Server/Site: what the handlers read of `Server`. The templates, encoding/json, the package `nat`
--   and the answers of the daemon are parameters and inputs.
-- - Server/Handlers (internal/server/handlers.go), Server/Api (internal/server/api.go): every
--   handler, from the cache and the daemon's answers to its reply and the cache that it leaves.
-- - Server/Middleware (internal/server/middleware.go): the middleware around a handler that acts on
--   the `World`: the cache, the request log and what the exec client was asked.
-- - Server/Routes (internal/server/server.go): `registerRoutes` and the handler that `New` builds,
--   over a mux that chooses one of the registered patterns.
-- - Server/Stream (internal/server/sse.go): `handleSSE`, over what its `select` gives.
-- - Server/Watch (internal/server/sse.go): the goroutine of the Docker events, its handler of an
--   event and its broadcast, as steps on the cache and the broker: an event or a tick begins a call,
--   and each part of it that works on the cache or the broker is a step of its own, so that others
--   come between them. Server/Watch/Whole has the call whose parts come in a row.
-- - Server/Terminal (internal/server/terminal.go): the guards of `handleTerminalWS` and what it asks
--   of the exec client; Server/Terminal/Session has the two goroutines of a session as steps on what
--   their reads return, in the order of time.
-- - Server/Helpers, Server/Funcs (internal/server/server.go): the functions that the templates call,
--   and `buildFuncMap`. What needs floating point is a parameter.
-- - Server/Templates (internal/server/server.go): `parseTemplates`, over the embedded files and an
--   engine that parses.
-- - Server/Setup (internal/server/server.go): `Server`, its `New`, `Start` and `Shutdown`, with the
--   fields of the `http.Server`.
-- - Main (cmd/wingstation/main.go): the start with its exits, over a `Platform` of what the program
--   stands on. Main/Run is the program as a sequence of actions: requests, service calls that
--   end late, sweeps, turns of the event goroutine, and streams that come and go. Main/End is
--   `main`, with its wait for a signal or a failure of the server, the shutdown, and the exit code;
--   Main/Configured is about the program as its environment configures it.
-- - Tests: the theorems at concrete inputs.
--
-- A handler is one step of a run. A call of a service that finds nothing in the cache holds no lock
-- while it waits for the daemon: its second part (`finish_list`, `finish_inspect`, `finish_info`) is
-- a step of its own too, on the cache as it is then, so that the runs hold the calls that overlap.
-- The calls of the event goroutine are steps part by part: the invalidation, the read of the cache,
-- the write of the daemon's answer, the broadcast of the groups and that of the update.
--
-- Bounds: int and int64 have 64 bits; `Atoi` fails beyond them and a difference of times saturates.
-- Sums of times are taken without overflow: the clock and the times to live stay far below 2 ^ 63
-- nanoseconds. The one fuel, that of the decimal digits in Go/Strconv, is one more than the number.
-- A channel holds sixteen messages. Mutexes are not modelled: a method that holds one is one step.
--
-- Not modelled: the Docker SDK, net/http, html/template, encoding/json and the WebSocket library,
-- which are parameters; the content of the templates and of the static files; the constructors
-- `NewContainerService` and `NewHostService`, which store their arguments; the times of the log, and
-- what the timeouts, the pause before a reconnection and the deferred `Close` of the Docker client do.
pub mod Prelude
pub mod Go
pub mod Docker
pub mod Cache
pub mod Config
pub mod Service
pub mod Server
pub mod Main
pub mod Tests
