-- ===== src/Server/Stream/Laws.antt =====
-- What `handleSSE` writes.
use wingstation.Prelude.{
  Str, bytes, true, List, [], ◌∷◌, ◌++◌, ◌≡◌, refl, ◌∙◌, ap, map, All, append_assoc,
}
use wingstation.Prelude.Int.{ℤ}
use wingstation.Go.Strconv.{itoa_ℤ}
use wingstation.Server.Events.{newline, event_text, client_stream, concat}
use wingstation.Server.Events.Decode.{decode_stream}
use wingstation.Server.Events.RoundTrip.{IsSendable, decode-client_stream}
use wingstation.Server.Http.{Request, written}
use wingstation.Server.Stream.{Got, message, channel_closed, request_done, stream_calls, handle_sse}

-- The messages before the end of the channel or of the request.
abbrev pub received : List Got → List Str
received [] = []
received (message m ∷ gots) = m ∷ received gots
received (channel_closed ∷ gots) = []
received (request_done ∷ gots) = []

written-stream_calls : (gots : List Got) → written (stream_calls gots) ≡ concat (received gots)
unfolding written stream_calls concat
written-stream_calls [] = refl
written-stream_calls (message m ∷ gots) = ap (λ s. m ++ s) (written-stream_calls gots)
written-stream_calls (channel_closed ∷ gots) = refl
written-stream_calls (request_done ∷ gots) = refl

received-message :
    (messages : List Str) (rest : List Got)
    → received (map message messages ++ request_done ∷ rest) ≡ messages
received-message [] rest = refl
received-message (m ∷ messages) rest = ap (λ l. m ∷ l) (received-message messages rest)

-- What `handleSSE` writes is the stream of the messages that it receives, up to the closed channel
-- or the end of the request.
written-handle_sse :
    (retry : ℤ) (r : Request) (gots : List Got)
    → r.flushes ≡ true
    → written (handle_sse retry r gots).calls ≡ client_stream retry (received gots)
unfolding handle_sse written client_stream concat
written-handle_sse retry r gots f =
    rw (f, handle_sse)
      (ap (λ z. bytes "retry: " ++ z)
        (append_assoc (itoa_ℤ retry) (newline ∷ newline ∷ []) (written (stream_calls gots))
          ∙ ap (λ z. itoa_ℤ retry ++ newline ∷ newline ∷ z) (written-stream_calls gots)))

-- The events that are broadcast are the events that a browser reads from what `handleSSE` writes,
-- up to the end of its request, if the connection can be flushed, every name stands on one line and
-- no data holds a carriage return.
pub decode-handle_sse :
    (retry : ℤ) (r : Request) (events : List (Str × Str)) (rest : List Got)
    → r.flushes ≡ true
    → All IsSendable events
    → decode_stream (
        written
          (handle_sse retry r
            (map message (map (λ e. event_text e.0 e.1) events) ++ request_done ∷ rest)).calls)
      ≡ events
decode-handle_sse retry r events rest f h =
    let texts = map (λ e. event_text e.0 e.1) events in
    ap decode_stream (
      written-handle_sse retry r (map message texts ++ request_done ∷ rest) f
      ∙ ap (client_stream retry) (received-message texts rest))
    ∙ decode-client_stream retry events h
