-- ===== src/Server/Http.antt =====
-- What the handlers of internal/server use of net/http: the request, and the calls that they make
-- on the ResponseWriter, in order.
use wingstation.Prelude.{Str, Bool, true, false, List, [], ◌∷◌, ◌++◌, Option, ℕ}

-- `path_id` is what `PathValue` gives for the wildcard of the matched pattern, and `flushes` says
-- whether the connection's ResponseWriter is an `http.Flusher`.
pub record Request : Type 0 where
  pub method : Str
  pub path : Str
  pub query : Str → Str
  pub path_id : Str
  pub basic_auth : Option (Str × Str)
  pub flushes : Bool

-- The calls on a ResponseWriter; `http.Error` is one of them. `hijacked` is a status that is sent
-- on the connection which the ResponseWriter has given away, past the ResponseWriter.
pub data Call : Type 0 where
  set_header : Str → Str → Call
  write_header : ℕ → Call
  write : Str → Call
  flush : Call
  http_error : Str → ℕ → Call
  hijacked : ℕ → Call

-- What a handler did, and whether a panic ended it.
pub record Reply : Type 0 where
  pub calls : List Call
  pub panicked : Bool

abbrev pub replied : List Call → Reply
replied calls = record { calls = calls; panicked = false }

abbrev pub crashed : List Call → Reply
crashed calls = record { calls = calls; panicked = true }

-- The status that the client gets: that of the first call that sends one. To write or to flush
-- before sends 200, and so does the end of the handler.
unfoldable pub sent_status : List Call → ℕ
sent_status [] = 200
sent_status (set_header k v ∷ calls) = sent_status calls
sent_status (write_header code ∷ calls) = code
sent_status (write s ∷ calls) = 200
sent_status (flush ∷ calls) = 200
sent_status (http_error msg code ∷ calls) = code
sent_status (hijacked code ∷ calls) = code

-- What the handler itself writes into the body.
unfoldable pub written : List Call → Str
written [] = []
written (write s ∷ calls) = s ++ written calls
written (_ ∷ calls) = written calls
