-- ===== src/Server/Terminal/Session.antt =====
-- internal/server/terminal.go: the two goroutines of a session, as one sequence of what their
-- reads return, in the order of time.
use mathlib.Core.List.{foldl}
use wingstation.Prelude.{
  Str, bytes, str_eq, Bool, true, false, not, ◌&&◌, ◌||◌, List, [], ◌∷◌, ◌++◌, Option, none, some,
  if◌then◌else◌, ℕ,
}

-- `resizeMessage`
pub record ResizeMessage : Type 0 where
  pub kind : Str
  pub cols : ℕ
  pub rows : ℕ

-- What is asked of the exec client and of the attached connection. A resize has its height first.
pub data ExecCall : Type 0 where
  created : Str → List Str → ExecCall
  attached : Str → ExecCall
  stdin : Str → ExecCall
  resized : ℕ → ℕ → ExecCall
  closed : ExecCall

-- A read from the exec, with whether the browser takes it and whether the read failed; a text
-- message, with whether the exec takes it; a control message; the failure of a read from the
-- WebSocket.
pub data Event : Type 0 where
  exec_read : Str → Bool → Bool → Event
  ws_text : Str → Bool → Event
  ws_binary : Str → Event
  ws_failed : Event

-- Whether the goroutines still run, what the exec was asked, and what the browser was sent.
pub record Session : Type 0 where
  pub output_live : Bool
  pub input_live : Bool
  pub asked : List ExecCall
  pub shown : List Str

abbrev pub new_session : Session
new_session = record { output_live = true; input_live = true; asked = []; shown = [] }

-- What a control message asks for; a resize that fails is only logged.
abbrev pub control : Option ResizeMessage → List ExecCall
control none = []
control (some m) = if str_eq m.kind (bytes "resize") then resized m.rows m.cols ∷ [] else []

module _ (parse : Str → Option ResizeMessage) where
  -- One round of one of the two loops.
  unfoldable pub session_step : Session → Event → Session
  session_step s (exec_read chunk taken failed) =
      if s.output_live
      then record s {
        output_live = if not (str_eq chunk []) && not taken then false else not failed;
        shown = if str_eq chunk [] then s.shown else s.shown ++ chunk ∷ [];
      }
      else s
  session_step s (ws_text msg taken) =
      if s.input_live then record s { input_live = taken; asked = s.asked ++ stdin msg ∷ [] } else s
  session_step s (ws_binary msg) =
      if s.input_live then record s { asked = s.asked ++ control (parse msg) } else s
  session_step s ws_failed = record s { input_live = false }

  unfoldable pub run_session : Session → List Event → Session
  unfolding session_step
  run_session = foldl session_step

  -- `wg.Wait`
  abbrev pub has_ended : Session → Bool
  has_ended s = not (s.output_live || s.input_live)

  -- What a session asks of the exec: it is closed when both goroutines have returned.
  unfoldable pub session_calls : List Event → List ExecCall
  unfolding run_session
  session_calls events =
      let s = run_session new_session events in s.asked ++ (if has_ended s then closed ∷ [] else [])
