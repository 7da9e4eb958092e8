-- ===== src/Server/Events/RoundTrip.antt =====
-- The text of a stream (internal/server/sse.go) against what a browser reads from it.
use wingstation.Prelude.{
  All-imp, true, Str, bytes, Bool, false, List, [], ◌∷◌, ◌++◌, ◌==◌, ◌||◌, ◌≡◌, ◌≢◌, refl, ◌∙◌, ap,
  ℕ, All, map, suc, arith, append_assoc,
}
use wingstation.Go.Strings.{has_prefix, trim_prefix, join, split}
use wingstation.Go.Strings.Cut.{Lacks, split-Lacks, split-All, split-nonempty, join-split}
use wingstation.Prelude.Int.{ℤ, pos, negsuc}
use wingstation.Go.Strconv.{is_digit, itoa, itoa_ℤ}
use wingstation.Go.Strconv.RoundTrip.{itoa-All}
use wingstation.Server.Events.{newline, data_lines, event_text, concat, client_stream}
use wingstation.Server.Events.Decode.{
  stream_lines, field_value, dispatched, decode_lines, decode_stream,
}

abbrev pub ends_line : ℕ → Bool
ends_line c = c == 10 || c == 13

-- Neither a line feed nor a carriage return.
abbrev pub OnLine : Str → Type 0
OnLine = All (λ c. ends_line c ≡ false)

stream_lines-line : (l s : Str) → OnLine l → stream_lines (l ++ newline ∷ s) ≡ l ∷ stream_lines s
unfolding stream_lines
stream_lines-line [] s h = ground arith
stream_lines-line (c ∷ l) s (n, h) = ground (arith, stream_lines-line l s h)

OnLine-event : (l : Str) → OnLine l → OnLine (bytes "event: " ++ l)
OnLine-event l h = (refl, (refl, (refl, (refl, (refl, (refl, (refl, h)))))))

OnLine-retry : (l : Str) → OnLine l → OnLine (bytes "retry: " ++ l)
OnLine-retry l h = (refl, (refl, (refl, (refl, (refl, (refl, (refl, h)))))))

OnLine-data : (l : Str) → OnLine l → OnLine (bytes "data: " ++ l)
OnLine-data l h = (refl, (refl, (refl, (refl, (refl, (refl, h))))))

-- The lines of the data of an event.
lines_of : List Str → List Str
lines_of [] = []
lines_of (l ∷ ls) = (bytes "data: " ++ l) ∷ lines_of ls

stream_lines-data_lines :
    (ls : List Str) (s : Str)
    → All OnLine ls
    → stream_lines (data_lines ls ++ s) ≡ lines_of ls ++ stream_lines s
unfolding data_lines lines_of
stream_lines-data_lines [] s h = refl
stream_lines-data_lines (l ∷ ls) s (hl, h) =
    ap (λ t. stream_lines (bytes "data: " ++ t)) (append_assoc l (newline ∷ data_lines ls) s)
    ∙ stream_lines-line (bytes "data: " ++ l) (data_lines ls ++ s) (OnLine-data l hl)
    ∙ ap ((bytes "data: " ++ l) ∷◌) (stream_lines-data_lines ls s h)

decode_lines-data_line :
    (name k : Str) (met ls : List Str)
    → decode_lines name met ((bytes "data: " ++ k) ∷ ls) ≡ decode_lines name (met ++ k ∷ []) ls
unfolding decode_lines field_value has_prefix trim_prefix
decode_lines-data_line name k met ls = refl

decode_lines-event_line :
    (name v : Str) (met ls : List Str)
    → decode_lines name met ((bytes "event: " ++ v) ∷ ls) ≡ decode_lines v met ls
unfolding decode_lines field_value has_prefix trim_prefix
decode_lines-event_line name v met ls = refl

dispatched-some :
    (name l : Str) (met : List Str) (es : List (Str × Str))
    → dispatched name (met ++ l ∷ []) es ≡ (name, join (newline ∷ []) (met ++ l ∷ [])) ∷ es
dispatched-some name l [] es = refl
dispatched-some name l (m ∷ met) es = refl

-- The data of an event is read line by line.
decode_lines-data :
    (name : Str) (l : Str) (met ls rest : List Str)
    → decode_lines name (met ++ l ∷ []) (lines_of ls ++ [] ∷ rest)
      ≡ (name, join (newline ∷ []) (met ++ l ∷ ls)) ∷ decode_lines [] [] rest
unfolding decode_lines lines_of
decode_lines-data name l met [] rest = dispatched-some name l met (decode_lines [] [] rest)
decode_lines-data name l met (k ∷ ls) rest =
    decode_lines-data_line name k (met ++ l ∷ []) (lines_of ls ++ [] ∷ rest)
    ∙ decode_lines-data name k (met ++ l ∷ []) ls rest
    ∙ ap (λ t. (name, join (newline ∷ []) t) ∷ decode_lines [] [] rest)
        (append_assoc met (l ∷ []) (k ∷ ls))

-- The data lines of an event, then its empty line.
decode_lines-event :
    (name : Str) (ls rest : List Str)
    → ls ≢ []
    → decode_lines name [] (lines_of ls ++ [] ∷ rest)
      ≡ (name, join (newline ∷ []) ls) ∷ decode_lines [] [] rest
unfolding lines_of
decode_lines-event name [] rest n = absurd (n refl)
decode_lines-event name (l ∷ ls) rest n =
    decode_lines-data_line name l [] (lines_of ls ++ [] ∷ rest)
    ∙ decode_lines-data name l [] ls rest

-- The lines of the text of an event, in front of what follows in the stream.
stream_lines-event_text :
    (name payload s : Str)
    → OnLine name
    → All OnLine (split newline payload)
    → stream_lines (event_text name payload ++ s)
      ≡ (bytes "event: " ++ name) ∷ (lines_of (split newline payload) ++ [] ∷ stream_lines s)
unfolding event_text
stream_lines-event_text name payload s hn hs =
    let lines = data_lines (split newline payload) in
    ap (λ t. stream_lines (bytes "event: " ++ t))
      (append_assoc name (newline ∷ (lines ++ newline ∷ [])) s)
    ∙ stream_lines-line (bytes "event: " ++ name) ((lines ++ newline ∷ []) ++ s)
        (OnLine-event name hn)
    ∙ ap (λ t. (bytes "event: " ++ name) ∷ stream_lines t) (append_assoc lines (newline ∷ []) s)
    ∙ ap ((bytes "event: " ++ name) ∷◌)
        (stream_lines-data_lines (split newline payload) (newline ∷ s) hs)
    ∙ ap (λ t. (bytes "event: " ++ name) ∷ (lines_of (split newline payload) ++ t))
        (stream_lines-line [] s tt)

-- No line feed and no carriage return, from the two separately.
OnLine-both : (l : Str) → Lacks 10 l → Lacks 13 l → OnLine l
OnLine-both [] h r = tt
OnLine-both (c ∷ l) (n, h) (m, r) = (ground arith, OnLine-both l h r)

OnLine-All : (ls : List Str) → All (Lacks 10) ls → All (Lacks 13) ls → All OnLine ls
OnLine-All [] h r = tt
OnLine-All (l ∷ ls) (n, h) (m, r) = (OnLine-both l n m, OnLine-All ls h r)

-- What can be sent: a name on one line, and data without a carriage return.
abbrev pub IsSendable : Str × Str → Type 0
IsSendable (name, payload) = OnLine name × Lacks 13 payload

decode-event_text :
    (name payload s : Str)
    → IsSendable (name, payload)
    → decode_stream (event_text name payload ++ s) ≡ (name, payload) ∷ decode_stream s
unfolding decode_stream
decode-event_text name payload s (hn, r) =
    let lines = split newline payload in
    ap (decode_lines [] []) (
      stream_lines-event_text name payload s hn (
        OnLine-All lines (split-Lacks newline payload) (split-All (λ c. c ≢ 13) newline payload r)))
    ∙ decode_lines-event_line [] name [] (lines_of lines ++ [] ∷ stream_lines s)
    ∙ decode_lines-event name lines (stream_lines s) (split-nonempty newline payload)
    ∙ ap (λ t. (name, t) ∷ decode_lines [] [] (stream_lines s)) (join-split newline payload)

-- A digit ends no line, so that the text of a number is on one line.
itoa-OnLine : (n : ℕ) → OnLine (itoa n)
itoa-OnLine n =
    All-imp (λ c. is_digit c ≡ true) (λ c. ends_line c ≡ false) (λ c d. within c d) (itoa n)
      (itoa-All n)
  where
    within : (c : ℕ) → is_digit c ≡ true → ends_line c ≡ false
    within c d = ground arith

itoa_ℤ-OnLine : (n : ℤ) → OnLine (itoa_ℤ n)
unfolding itoa_ℤ
itoa_ℤ-OnLine (pos n) = itoa-OnLine n
itoa_ℤ-OnLine (negsuc n) = (refl, itoa-OnLine (suc n))

decode_lines-retry :
    (v : Str) (ls : List Str)
    → decode_lines [] [] ((bytes "retry: " ++ v) ∷ [] ∷ ls) ≡ decode_lines [] [] ls
unfolding decode_lines field_value has_prefix trim_prefix
decode_lines-retry v ls = refl

decode-texts :
    (es : List (Str × Str))
    → All IsSendable es
    → decode_stream (concat (map (λ e. event_text e.0 e.1) es)) ≡ es
unfolding concat
decode-texts [] h = unfold decode_stream in refl
decode-texts ((name, payload) ∷ es) (s, h) =
    decode-event_text name payload (concat (map (λ e. event_text e.0 e.1) es)) s
    ∙ ap ((name, payload) ∷◌) (decode-texts es h)

-- What a handler writes for any retry interval and any broadcast events is read by a browser as
-- exactly these events, in their order, if every name stands on one line and no data holds a
-- carriage return; the data may have any number of lines.
pub decode-client_stream :
    (retry : ℤ) (es : List (Str × Str))
    → All IsSendable es
    → decode_stream (client_stream retry (map (λ e. event_text e.0 e.1) es)) ≡ es
unfolding decode_stream client_stream
decode-client_stream retry es h =
    let rest = concat (map (λ e. event_text e.0 e.1) es) in
    ap (decode_lines [] []) (
      stream_lines-line (bytes "retry: " ++ itoa_ℤ retry) (newline ∷ rest)
        (OnLine-retry (itoa_ℤ retry) (itoa_ℤ-OnLine retry))
      ∙ ap ((bytes "retry: " ++ itoa_ℤ retry) ∷◌) (stream_lines-line [] rest tt))
    ∙ decode_lines-retry (itoa_ℤ retry) (stream_lines rest)
    ∙ decode-texts es h
