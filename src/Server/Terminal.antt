-- ===== src/Server/Terminal.antt =====
-- internal/server/terminal.go: `handleTerminalWS`. What the exec client, the WebSocket and the
-- attached connection answer are inputs; the calls that write to them are what the handler does.
pub mod Session
pub mod Guard
pub mod Gone
use wingstation.Prelude.{
  Str, bytes, str_eq, Bool, true, false, List, [], ◌∷◌, ◌++◌, Option, none, some, if◌then◌else◌, ℕ,
}
use wingstation.Go.Result.{Result, ok, err, panic}
use wingstation.Server.Http.{Request, Call, http_error, hijacked, Reply, replied, crashed}
use wingstation.Server.Terminal.Session.{
  ResizeMessage, ExecCall, created, attached, closed, Event, session_calls,
}

-- `state` is what `ContainerInspect` says of `State.Running`, `none` a nil pointer on the way
-- there; `exec_id` and `attach` answer `ContainerExecCreate` and
-- `ContainerExecAttach`, the second by its error. `upgraded`
-- says whether `Upgrade` succeeds, and `upgrade_calls` are its calls on the ResponseWriter when it
-- fails.
pub record TerminalAnswers : Type 0 where
  pub state : Result (Option Bool)
  pub exec_id : Result Str
  pub attach : Option Str
  pub upgrade_calls : List Call
  pub upgraded : Bool
  pub events : List Event

-- `websocket.Upgrader`, by the fields that are set.
pub record Upgrader : Type 0 where
  pub read_buffer_size : ℕ
  pub write_buffer_size : ℕ
  pub check_origin : Request → Bool

abbrev pub upgrader : Upgrader
upgrader = record { read_buffer_size = 4096; write_buffer_size = 4096; check_origin = λ r. true }

abbrev pub refused : Str → ℕ → Reply
refused msg code = replied (http_error msg code ∷ [])

-- The command of every exec.
abbrev pub shell : List Str
shell = bytes "/bin/sh" ∷ []

-- `json.Unmarshal` of a control message is a parameter.
module _ (parse : Str → Option ResizeMessage) (t : TerminalAnswers) where
  -- From the upgrade on. One that succeeds hijacks the connection and sends 101 on it.
  abbrev pub on_upgrade : Bool → Reply × List ExecCall
  on_upgrade true = (replied (hijacked 101 ∷ []), session_calls parse t.events)
  on_upgrade false = (replied t.upgrade_calls, closed ∷ [])

  -- From the answer of the attachment on.
  abbrev pub on_attach : Str → Option Str → Reply × List ExecCall
  on_attach exec_id (some e) =
      (refused (bytes "Failed to attach to exec") 500, attached exec_id ∷ [])
  on_attach exec_id none =
      let (rep, calls) = on_upgrade t.upgraded in (rep, attached exec_id ∷ calls)

  -- From the answer of the creation on.
  abbrev pub on_create : Str → Result Str → Reply × List ExecCall
  on_create id (err e) = (refused (bytes "Failed to create exec") 500, created id shell ∷ [])
  on_create id panic = (crashed [], created id shell ∷ [])
  on_create id (ok exec_id) =
      let (rep, calls) = on_attach exec_id t.attach in (rep, created id shell ∷ calls)

  -- From the answer of the inspection on.
  abbrev pub on_state : Str → Result (Option Bool) → Reply × List ExecCall
  on_state id (err e) = (refused (bytes "Container not found") 404, [])
  on_state id panic = (crashed [], [])
  on_state id (ok none) = (crashed [], [])
  on_state id (ok (some false)) = (refused (bytes "Container is not running") 400, [])
  on_state id (ok (some true)) = on_create id t.exec_id

  -- `handleTerminalWS`
  unfoldable pub handle_terminal_ws : Request → Reply × List ExecCall
  handle_terminal_ws r =
      let id = r.query (bytes "id") in
      if str_eq id [] then (refused (bytes "Missing id parameter") 400, []) else on_state id t.state
