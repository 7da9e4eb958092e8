-- ===== src/Server/Events/Decode.antt =====
-- What a browser makes of an event stream: the parsing of the HTML standard (server-sent
-- events), for the fields `event` and `data`.
use wingstation.Prelude.{
  Str, bytes, Bool, false, List, [], ◌∷◌, ◌++◌, Option, none, some, ◌==◌, if◌then◌else◌, ℕ,
}
use wingstation.Go.Strings.{has_prefix, trim_prefix, join}

abbrev carriage_return : ℕ
carriage_return = 13

abbrev starts_newline : Str → Bool
starts_newline [] = false
starts_newline (c ∷ s) = c == 10

-- What is not ended is no line.
abbrev pub extend_line : ℕ → List Str → List Str
extend_line c [] = []
extend_line c (l ∷ ls) = (c ∷ l) ∷ ls

-- A line ends with a line feed, a carriage return, or both.
unfoldable pub stream_lines : Str → List Str
stream_lines [] = []
stream_lines (c ∷ s) =
    let rest = stream_lines s in
    if c == 10
    then [] ∷ rest
    else if c == carriage_return
    then if starts_newline s then rest else [] ∷ rest
    else extend_line c rest

-- The value of a field, without one leading space.
unfoldable pub field_value : Str → Str → Option Str
field_value key line =
    if has_prefix line (key ++ b':' ∷ [])
    then some (trim_prefix (trim_prefix line (key ++ b':' ∷ [])) (bytes " "))
    else none

-- The event that an empty line ends: none if it has no data.
abbrev pub dispatched : Str → List Str → List (Str × Str) → List (Str × Str)
dispatched name [] events = events
dispatched name (d ∷ ds) events = (name, join (10 ∷ []) (d ∷ ds)) ∷ events

-- The events of the lines, from the name and the data met so far.
unfoldable pub decode_lines : Str → List Str → List Str → List (Str × Str)
unfolding field_value
decode_lines name payload [] = []
decode_lines name payload ([] ∷ ls) = dispatched name payload (decode_lines [] [] ls)
decode_lines name payload ((c ∷ l) ∷ ls) = elim (field_value (bytes "event") (c ∷ l)) [
  | some v ↦ decode_lines v payload ls
  | none ↦ elim (field_value (bytes "data") (c ∷ l)) [
    | some v ↦ decode_lines name (payload ++ v ∷ []) ls
    | none ↦ decode_lines name payload ls
  ]
]

unfoldable pub decode_stream : Str → List (Str × Str)
unfolding decode_lines stream_lines
decode_stream s = decode_lines [] [] (stream_lines s)
