-- ===== src/Server/Middleware.antt =====
-- internal/server/middleware.go: the middleware, around a handler that acts on what the requests
-- share.
pub mod Status
use mathlib.Core.List.{foldl}
use wingstation.Prelude.{
  Str, bytes, str_eq, Bool, true, false, not, ◌&&◌, ◌||◌, List, [], ◌∷◌, ◌++◌, Option, none, some,
  if◌then◌else◌, filter, ℕ,
}
use wingstation.Go.Result.{Result, err}
use wingstation.Cache.{Cache}
use wingstation.Config.{Config}
use wingstation.Service.Listing.{Cached}
use wingstation.Server.Http.{
  Request, Call, set_header, write_header, write, flush, http_error, hijacked, Reply, replied,
}
use wingstation.Server.Terminal.Session.{ExecCall}

-- An entry of the request log, without the times and the remote address.
pub record LogEntry : Type 0 where
  pub method : Str
  pub path : Str
  pub status : ℕ

-- The cache, the request log, and what the exec client was asked.
pub record World : Type 0 where
  pub cache : Cache Cached
  pub log : List LogEntry
  pub execs : List ExecCall

abbrev pub Handler : Type 0
Handler = Request → World → Reply × World

-- `statusWriter.WriteHeader` keeps the code; no other call changes it. `http.Error` calls it, and
-- what is sent on a hijacked connection does not pass it.
abbrev pub see_call : ℕ → Call → ℕ
see_call status (write_header code) = code
see_call status (http_error msg code) = code
see_call status (set_header k v) = status
see_call status (write s) = status
see_call status flush = status
see_call status (hijacked code) = status

-- The status that the wrapper holds in the end.
unfoldable pub recorded_status : List Call → ℕ
recorded_status = foldl see_call 200

abbrev pub is_flush : Call → Bool
is_flush flush = true
is_flush _ = false

-- `statusWriter.Flush`: the flushes go through if the wrapped writer is a Flusher.
unfoldable pub passed_on : Bool → List Call → List Call
passed_on flushes calls = if flushes then calls else filter (λ c. not (is_flush c)) calls

-- `statusWriter.Hijack`: the connection, as the wrapped writer gives it if it is a Hijacker.
unfoldable pub hijack : {C : Type 0} → Option (Result C) → Result C
hijack none = err (bytes "underlying ResponseWriter does not support hijacking")
hijack (some given) = given

-- The entry of a request.
abbrev pub entry_of : Request → List Call → LogEntry
entry_of r calls = record { method = r.method; path = r.path; status = recorded_status calls }

-- `loggingMiddleware`: the wrapper is a Flusher in any case; a panic goes up past the log.
unfoldable pub logging : Handler → Handler
unfolding recorded_status passed_on
logging next r w =
    let (rep, after) = next (record r { flushes = true }) w in
    (
      record rep { calls = passed_on r.flushes rep.calls },
      if rep.panicked then after else record after { log = after.log ++ entry_of r rep.calls ∷ [] },
    )

-- What is left of a reply behind the recovery.
abbrev pub recovered : Reply → Reply
recovered rep =
    if rep.panicked
    then replied (rep.calls ++ http_error (bytes "Internal server error") 500 ∷ [])
    else rep

-- `recoveryMiddleware`, without its line of the log.
unfoldable pub recovery : Handler → Handler
recovery next r w = let (rep, after) = next r w in (recovered rep, after)

-- `subtle.ConstantTimeCompare` compares contents.
unfoldable pub has_credentials : Config → Request → Bool
has_credentials cfg r = elim r.basic_auth [
  | none ↦ false
  | some (user, pass) ↦ str_eq user cfg.auth_user && str_eq pass cfg.auth_pass
]

-- What an unauthorized request gets.
abbrev pub unauthorized : List Call
unauthorized =
    set_header (bytes "WWW-Authenticate") (bytes "Basic realm=\"WingStation\"")
    ∷ http_error (bytes "Unauthorized") 401
    ∷ []

-- `basicAuthMiddleware`
unfoldable pub basic_auth : Config → Handler → Handler
unfolding has_credentials
basic_auth cfg next r w =
    if str_eq r.path (bytes "/healthz")
    then next r w
    else if not (has_credentials cfg r)
    then (replied unauthorized, w)
    else next r w
