-- ===== src/Server/Terminal/Guard.antt =====
-- internal/server/terminal.go: when an exec is created, and what the session does with it.
use wingstation.Prelude.{
  Str, bytes, str_eq, str_eq_iff, Bool, true, false, List, [], ◌∷◌, ◌++◌, Option, none, some, ◌≡◌,
  ◌≢◌, refl, sym, ◌∙◌, ap, inl, inr, Bool-cases, not_both, append_assoc, append-nil, if◌then◌else◌,
}
use wingstation.Go.Result.{Result, ok, err, panic}
use wingstation.Server.Http.{Request}
use wingstation.Server.Terminal.{TerminalAnswers, on_state, handle_terminal_ws}
use wingstation.Server.Terminal.Session.{
  ResizeMessage, ExecCall, created, attached, stdin, resized, closed, Event, exec_read, ws_text,
  ws_binary, ws_failed, Session, new_session, control, session_step, run_session, has_ended,
  session_calls,
}

module _ (parse : Str → Option ResizeMessage) where
  on_state-running :
      (t : TerminalAnswers) (id : Str) (a : Result (Option Bool))
      → (on_state parse t id a).1 ≢ []
      → a ≡ ok (some true)
  on_state-running t id (err e) n = absurd (n refl)
  on_state-running t id panic n = absurd (n refl)
  on_state-running t id (ok none) n = absurd (n refl)
  on_state-running t id (ok (some false)) n = absurd (n refl)
  on_state-running t id (ok (some true)) n = refl

  -- The terminal asks for an exec, or for anything of one, only if the request names a container
  -- and the daemon says of that container that it runs.
  pub handle_terminal_ws-running :
      (t : TerminalAnswers) (r : Request)
      → (handle_terminal_ws parse t r).1 ≢ []
      → (r.query (bytes "id") ≢ []) × (t.state ≡ ok (some true))
  unfolding handle_terminal_ws
  handle_terminal_ws-running t r n = elim (Bool-cases (str_eq (r.query (bytes "id")) [])) [
    | inl e ↦ absurd (n (rw (e, handle_terminal_ws) refl))
    | inr e ↦ (
      λ p. not_both _ ((str_eq_iff _ _).1 p) e,
      on_state-running t (r.query (bytes "id")) t.state (λ q. n (rw (e, handle_terminal_ws) q)),
    )
  ]

  -- The text messages that are read, up to the first that the exec does not take or the first
  -- read that fails.
  abbrev pub typed : List Event → List Str
  typed [] = []
  typed (ws_text msg true ∷ events) = msg ∷ typed events
  typed (ws_text msg false ∷ events) = msg ∷ []
  typed (ws_failed ∷ events) = []
  typed (ws_binary msg ∷ events) = typed events
  typed (exec_read chunk taken failed ∷ events) = typed events

  -- What is written to the standard input.
  abbrev pub stdins : List ExecCall → List Str
  stdins [] = []
  stdins (stdin msg ∷ calls) = msg ∷ stdins calls
  stdins (created id cmd ∷ calls) = stdins calls
  stdins (attached id ∷ calls) = stdins calls
  stdins (resized height width ∷ calls) = stdins calls
  stdins (closed ∷ calls) = stdins calls

  stdins-append : (xs ys : List ExecCall) → stdins (xs ++ ys) ≡ stdins xs ++ stdins ys
  stdins-append [] ys = refl
  stdins-append (stdin msg ∷ xs) ys = ap (λ l. msg ∷ l) (stdins-append xs ys)
  stdins-append (created id cmd ∷ xs) ys = stdins-append xs ys
  stdins-append (attached id ∷ xs) ys = stdins-append xs ys
  stdins-append (resized height width ∷ xs) ys = stdins-append xs ys
  stdins-append (closed ∷ xs) ys = stdins-append xs ys

  stdins-control : (m : Option ResizeMessage) → stdins (control m) ≡ []
  stdins-control none = refl
  stdins-control (some m) = go (str_eq m.kind (bytes "resize"))
    where
      go : (b : Bool) → stdins (if b then resized m.rows m.cols ∷ [] else []) ≡ []
      go true = refl
      go false = refl

  abbrev pub session : Bool → Bool → List ExecCall → List Str → Session
  session out inp asked shown = record {
    output_live = out;
    input_live = inp;
    asked = asked;
    shown = shown;
  }

  -- Once the input has ended, nothing is asked of the exec.
  pub input_ended :
      (events : List Event) (out : Bool) (asked : List ExecCall) (shown : List Str)
      → (run_session parse (session out false asked shown) events).asked ≡ asked
  unfolding run_session session_step
  input_ended [] out asked shown = refl
  input_ended (exec_read chunk taken failed ∷ events) true asked shown =
      input_ended events _ asked _
  input_ended (exec_read chunk taken failed ∷ events) false asked shown =
      input_ended events false asked shown
  input_ended (ws_text msg taken ∷ events) out asked shown = input_ended events out asked shown
  input_ended (ws_binary msg ∷ events) out asked shown = input_ended events out asked shown
  input_ended (ws_failed ∷ events) out asked shown = input_ended events out asked shown

  stdins-run_session :
      (events : List Event) (out : Bool) (asked : List ExecCall) (shown : List Str)
      → stdins (run_session parse (session out true asked shown) events).asked
        ≡ stdins asked ++ typed events
  unfolding run_session session_step
  stdins-run_session [] out asked shown = sym (append-nil (stdins asked))
  stdins-run_session (exec_read chunk taken failed ∷ events) true asked shown =
      stdins-run_session events _ asked _
  stdins-run_session (exec_read chunk taken failed ∷ events) false asked shown =
      stdins-run_session events false asked shown
  stdins-run_session (ws_text msg true ∷ events) out asked shown =
      stdins-run_session events out (asked ++ stdin msg ∷ []) shown
      ∙ ap (λ l. l ++ typed events) (stdins-append asked (stdin msg ∷ []))
      ∙ append_assoc (stdins asked) (msg ∷ []) (typed events)
  stdins-run_session (ws_text msg false ∷ events) out asked shown =
      ap stdins (input_ended events out (asked ++ stdin msg ∷ []) shown)
      ∙ stdins-append asked (stdin msg ∷ [])
  stdins-run_session (ws_binary msg ∷ events) out asked shown =
      stdins-run_session events out (asked ++ control (parse msg)) shown
      ∙ ap (λ l. l ++ typed events)
          (stdins-append asked (control (parse msg))
            ∙ ap (λ l. stdins asked ++ l) (stdins-control (parse msg))
            ∙ append-nil (stdins asked))
  stdins-run_session (ws_failed ∷ events) out asked shown =
      ap stdins (input_ended events out asked shown) ∙ sym (append-nil (stdins asked))

  stdins-ending : (b : Bool) → stdins (if b then closed ∷ [] else []) ≡ []
  stdins-ending true = refl
  stdins-ending false = refl

  -- What the shell reads on its standard input is what the user types: the text messages of the
  -- browser, in their order, up to the first that the exec does not take or the first read that
  -- fails. No control message and nothing after the end reaches it, whatever the exec says
  -- meanwhile.
  pub session_calls-typed :
      (events : List Event) → stdins (session_calls parse events) ≡ typed events
  unfolding session_calls
  session_calls-typed events =
      let s = run_session parse new_session events in
      stdins-append s.asked (if has_ended parse s then closed ∷ [] else [])
      ∙ ap (λ l. stdins s.asked ++ l) (stdins-ending (has_ended parse s))
      ∙ append-nil (stdins s.asked)
      ∙ stdins-run_session events true [] []
