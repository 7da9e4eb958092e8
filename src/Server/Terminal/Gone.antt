-- ===== src/Server/Terminal/Gone.antt =====
-- internal/server/terminal.go: a session whose browser has gone.
use mathlib.Core.List.{foldl-append}
use wingstation.Prelude.{
  Str, bytes, str_eq, Bool, true, false, not, ◌&&◌, ◌||◌, List, [], ◌∷◌, ◌++◌, Option, none, some,
  ◌≡◌, ◌≢◌, refl, sym, ◌∙◌, ap, All, append-nil, if◌then◌else◌, All-append, subst,
}
use wingstation.Server.Terminal.Session.{
  ResizeMessage, ExecCall, stdin, resized, closed, Event, exec_read, ws_text, ws_binary, ws_failed,
  Session, new_session, control, session_step, run_session, has_ended, session_calls,
}
use wingstation.Server.Terminal.Guard.{session, input_ended}

module _ (parse : Str → Option ResizeMessage) where
  -- The exec says nothing that ends the output: no read of it fails, and the browser takes what
  -- it is sent.
  abbrev pub IsSilent : Event → Type 0
  IsSilent (exec_read chunk taken failed) = (taken ≡ true) × (failed ≡ false)
  IsSilent (ws_text msg taken) = Unit
  IsSilent (ws_binary msg) = Unit
  IsSilent ws_failed = Unit

  still_live : (b : Bool) → (if b && false then false else true) ≡ true
  still_live true = refl
  still_live false = refl

  output_stays :
      (events : List Event) (inp : Bool) (asked : List ExecCall) (shown : List Str)
      → All IsSilent events
      → (run_session parse (session parse true inp asked shown) events).output_live ≡ true
  unfolding run_session session_step
  output_stays [] inp asked shown h = refl
  output_stays (exec_read chunk true false ∷ events) inp asked shown (_, h) =
      let next = if str_eq chunk [] then shown else shown ++ chunk ∷ [] in
      ap (λ b. (run_session parse (session parse b inp asked next) events).output_live)
        (still_live (not (str_eq chunk [])))
      ∙ output_stays events inp asked next h
  output_stays (exec_read chunk true true ∷ events) inp asked shown ((t, f), h) = cc
  output_stays (exec_read chunk false failed ∷ events) inp asked shown ((t, f), h) = cc
  output_stays (ws_text msg taken ∷ events) true asked shown (_, h) =
      output_stays events taken _ shown h
  output_stays (ws_text msg taken ∷ events) false asked shown (_, h) =
      output_stays events false asked shown h
  output_stays (ws_binary msg ∷ events) true asked shown (_, h) = output_stays events true _ shown h
  output_stays (ws_binary msg ∷ events) false asked shown (_, h) =
      output_stays events false asked shown h
  output_stays (ws_failed ∷ events) inp asked shown (_, h) = output_stays events false asked shown h

  -- No call closes the exec.
  abbrev pub LeavesOpen : List ExecCall → Type 0
  LeavesOpen = All (λ c. c ≢ closed)

  control-LeavesOpen : (m : Option ResizeMessage) → LeavesOpen (control m)
  control-LeavesOpen none = tt
  control-LeavesOpen (some m) = go (str_eq m.kind (bytes "resize"))
    where
      go : (b : Bool) → LeavesOpen (if b then resized m.rows m.cols ∷ [] else [])
      go true = (λ e. cc, tt)
      go false = tt

  run_session-LeavesOpen :
      (events : List Event) (out inp : Bool) (asked : List ExecCall) (shown : List Str)
      → LeavesOpen asked
      → LeavesOpen (run_session parse (session parse out inp asked shown) events).asked
  unfolding run_session session_step
  run_session-LeavesOpen [] out inp asked shown h = h
  run_session-LeavesOpen (exec_read chunk taken failed ∷ events) true inp asked shown h =
      run_session-LeavesOpen events _ inp asked _ h
  run_session-LeavesOpen (exec_read chunk taken failed ∷ events) false inp asked shown h =
      run_session-LeavesOpen events false inp asked shown h
  run_session-LeavesOpen (ws_text msg taken ∷ events) out true asked shown h =
      run_session-LeavesOpen events out taken (asked ++ stdin msg ∷ []) shown
        (All-append (λ c. c ≢ closed) asked (stdin msg ∷ []) h (λ e. cc, tt))
  run_session-LeavesOpen (ws_text msg taken ∷ events) out false asked shown h =
      run_session-LeavesOpen events out false asked shown h
  run_session-LeavesOpen (ws_binary msg ∷ events) out true asked shown h =
      run_session-LeavesOpen events out true (asked ++ control (parse msg)) shown (
        All-append (λ c. c ≢ closed) asked (control (parse msg)) h (control-LeavesOpen (parse msg)))
  run_session-LeavesOpen (ws_binary msg ∷ events) out false asked shown h =
      run_session-LeavesOpen events out false asked shown h
  run_session-LeavesOpen (ws_failed ∷ events) out inp asked shown h =
      run_session-LeavesOpen events out false asked shown h

  -- When the browser has gone, after whatever the session was before, and no read of the exec fails
  -- and no output of it is refused, neither before nor after, nothing more is asked of the exec
  -- than before, and it is never closed.
  pub session_calls-ws_failed :
      (before events : List Event)
      → All IsSilent before
      → All IsSilent events
      → (session_calls parse (before ++ ws_failed ∷ events)
          ≡ (run_session parse new_session before).asked)
        × LeavesOpen (session_calls parse (before ++ ws_failed ∷ events))
  unfolding session_calls run_session session_step
  session_calls-ws_failed before events g h =
      let s = run_session parse new_session before in
      let same =
        ap (λ x. x.asked ++ (if has_ended parse x then closed ∷ [] else []))
          (foldl-append (session_step parse) new_session before (ws_failed ∷ events))
        ∙ (λ i.
            input_ended parse events s.output_live s.asked s.shown i
            ++ (if not (stays s (output_stays before true [] [] g) i || (gone s).input_live)
                then closed ∷ []
                else []))
        ∙ append-nil s.asked in
      (same, subst LeavesOpen (sym same) (run_session-LeavesOpen before true true [] [] tt))
    where
      gone : Session → Session
      gone x = run_session parse (session parse x.output_live false x.asked x.shown) events

      stays : (x : Session) → x.output_live ≡ true → (gone x).output_live ≡ true
      stays x o =
          ap (λ b. (run_session parse (session parse b false x.asked x.shown) events).output_live) o
          ∙ output_stays events false x.asked x.shown h
