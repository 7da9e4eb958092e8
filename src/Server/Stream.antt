-- ===== src/Server/Stream.antt =====
-- internal/server/sse.go: `handleSSE`, over what its `select` gives: a message of its channel, the
-- closed channel, or the end of the request.
pub mod Laws
use wingstation.Prelude.{Str, bytes, Bool, List, [], ◌∷◌, if◌then◌else◌}
use wingstation.Prelude.Int.{ℤ}
use wingstation.Server.Events.{client_stream}
use wingstation.Server.Http.{Request, Call, set_header, write, flush, http_error, Reply, replied}

pub data Got : Type 0 where
  message : Str → Got
  channel_closed : Got
  request_done : Got

-- The loop.
unfoldable pub stream_calls : List Got → List Call
stream_calls [] = []
stream_calls (message m ∷ gots) = write m ∷ flush ∷ stream_calls gots
stream_calls (channel_closed ∷ gots) = []
stream_calls (request_done ∷ gots) = []

-- `handleSSE`; the first text is that of a stream without messages. To subscribe and to unsubscribe
-- are steps of the broker.
unfoldable pub handle_sse : ℤ → Request → List Got → Reply
unfolding stream_calls
handle_sse retry r gots =
    if r.flushes
    then replied (
        set_header (bytes "Content-Type") (bytes "text/event-stream")
        ∷ set_header (bytes "Cache-Control") (bytes "no-cache")
        ∷ set_header (bytes "Connection") (bytes "keep-alive")
        ∷ set_header (bytes "X-Accel-Buffering") (bytes "no")
        ∷ write (client_stream retry [])
        ∷ flush
        ∷ stream_calls gots)
    else replied (http_error (bytes "Streaming not supported") 500 ∷ [])
