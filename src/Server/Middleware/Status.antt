-- ===== src/Server/Middleware/Status.antt =====
-- internal/server/middleware.go: the status that `statusWriter` holds, against the one that is
-- sent.
use mathlib.Core.List.{foldl}
use wingstation.Prelude.{Str, Bool, true, false, not, List, [], ◌∷◌, ◌≡◌, refl, map, filter, ℕ}
use wingstation.Server.Http.{
  Call, set_header, write_header, write, flush, http_error, hijacked, sent_status,
}
use wingstation.Server.Middleware.{see_call, recorded_status, is_flush, passed_on}

-- No call sets a status, and none is sent past the wrapper.
unfoldable pub is_quiet : List Call → Bool
is_quiet [] = true
is_quiet (write_header code ∷ calls) = false
is_quiet (http_error msg code ∷ calls) = false
is_quiet (set_header k v ∷ calls) = is_quiet calls
is_quiet (write s ∷ calls) = is_quiet calls
is_quiet (flush ∷ calls) = is_quiet calls
is_quiet (hijacked code ∷ calls) = false

-- No call sets a status after one was sent, and none is sent past the wrapper.
unfoldable pub is_orderly : List Call → Bool
unfolding is_quiet
is_orderly [] = true
is_orderly (set_header k v ∷ calls) = is_orderly calls
is_orderly (write_header code ∷ calls) = is_quiet calls
is_orderly (http_error msg code ∷ calls) = is_quiet calls
is_orderly (write s ∷ calls) = is_quiet calls
is_orderly (flush ∷ calls) = is_quiet calls
is_orderly (hijacked code ∷ calls) = false

pub is_quiet-is_orderly : (calls : List Call) → is_quiet calls ≡ true → is_orderly calls ≡ true
unfolding is_quiet is_orderly
is_quiet-is_orderly [] q = refl
is_quiet-is_orderly (write_header code ∷ calls) q = cc
is_quiet-is_orderly (http_error msg code ∷ calls) q = cc
is_quiet-is_orderly (set_header k v ∷ calls) q = is_quiet-is_orderly calls q
is_quiet-is_orderly (write s ∷ calls) q = q
is_quiet-is_orderly (flush ∷ calls) q = q
is_quiet-is_orderly (hijacked code ∷ calls) q = cc

pub is_quiet-map-write : (chunks : List Str) → is_quiet (map write chunks) ≡ true
unfolding is_quiet
is_quiet-map-write [] = refl
is_quiet-map-write (s ∷ chunks) = is_quiet-map-write chunks

foldl-see_call :
    (code : ℕ) (calls : List Call) → is_quiet calls ≡ true → foldl see_call code calls ≡ code
unfolding is_quiet
foldl-see_call code [] q = refl
foldl-see_call code (write_header c ∷ calls) q = cc
foldl-see_call code (http_error msg c ∷ calls) q = cc
foldl-see_call code (set_header k v ∷ calls) q = foldl-see_call code calls q
foldl-see_call code (write s ∷ calls) q = foldl-see_call code calls q
foldl-see_call code (flush ∷ calls) q = foldl-see_call code calls q
foldl-see_call code (hijacked c ∷ calls) q = cc

-- Where no call sets a status after one was sent, the wrapper holds the status that is sent.
pub recorded_status_sent :
    (calls : List Call) → is_orderly calls ≡ true → recorded_status calls ≡ sent_status calls
unfolding recorded_status sent_status is_orderly
recorded_status_sent [] h = refl
recorded_status_sent (set_header k v ∷ calls) h = recorded_status_sent calls h
recorded_status_sent (write_header code ∷ calls) h = foldl-see_call code calls h
recorded_status_sent (http_error msg code ∷ calls) h = foldl-see_call code calls h
recorded_status_sent (write s ∷ calls) h = foldl-see_call 200 calls h
recorded_status_sent (flush ∷ calls) h = foldl-see_call 200 calls h
recorded_status_sent (hijacked code ∷ calls) h = cc

-- Flushes that do not go through.
abbrev unflushed : List Call → List Call
unflushed = filter (λ c. not (is_flush c))

is_quiet-unflushed :
    (calls : List Call) → is_quiet calls ≡ true → sent_status (unflushed calls) ≡ 200
unfolding is_quiet filter sent_status
is_quiet-unflushed [] q = refl
is_quiet-unflushed (write_header c ∷ calls) q = cc
is_quiet-unflushed (http_error msg c ∷ calls) q = cc
is_quiet-unflushed (set_header k v ∷ calls) q = is_quiet-unflushed calls q
is_quiet-unflushed (write s ∷ calls) q = refl
is_quiet-unflushed (flush ∷ calls) q = is_quiet-unflushed calls q
is_quiet-unflushed (hijacked c ∷ calls) q = cc

sent_status-unflushed :
    (calls : List Call)
    → is_orderly calls ≡ true
    → sent_status (unflushed calls) ≡ sent_status calls
unfolding is_orderly filter sent_status
sent_status-unflushed [] h = refl
sent_status-unflushed (set_header k v ∷ calls) h = sent_status-unflushed calls h
sent_status-unflushed (write_header code ∷ calls) h = refl
sent_status-unflushed (http_error msg code ∷ calls) h = refl
sent_status-unflushed (write s ∷ calls) h = refl
sent_status-unflushed (flush ∷ calls) h = is_quiet-unflushed calls h
sent_status-unflushed (hijacked code ∷ calls) h = cc

pub sent_status-passed_on :
    (flushes : Bool) (calls : List Call)
    → is_orderly calls ≡ true
    → sent_status (passed_on flushes calls) ≡ sent_status calls
unfolding passed_on
sent_status-passed_on true calls h = refl
sent_status-passed_on false calls h = sent_status-unflushed calls h
