-- ===== src/Server/Events.antt =====
-- internal/server/sse.go: the text of a broadcast.
pub mod Decode
pub mod RoundTrip
use wingstation.Prelude.{Str, bytes, List, map, [], ◌∷◌, ◌++◌, ℕ}
use wingstation.Prelude.Int.{ℤ}
use wingstation.Go.Strings.{split}
use wingstation.Go.Strconv.{itoa_ℤ}

abbrev pub newline : ℕ
newline = 10

-- The loop over the lines of the data.
unfoldable pub data_lines : List Str → Str
data_lines [] = []
data_lines (line ∷ lines) = bytes "data: " ++ (line ++ newline ∷ data_lines lines)

-- What `Broadcast` puts into the channels.
unfoldable pub event_text : Str → Str → Str
unfolding data_lines
event_text name payload =
    bytes "event: " ++ (name ++ newline ∷ (data_lines (split newline payload) ++ newline ∷ []))

unfoldable pub concat : List Str → Str
concat [] = []
concat (s ∷ ss) = s ++ concat ss

-- What `handleSSE` writes to a client, from the messages that it receives.
unfoldable pub client_stream : ℤ → List Str → Str
unfolding concat
client_stream retry messages =
    bytes "retry: " ++ (itoa_ℤ retry ++ newline ∷ newline ∷ concat messages)
