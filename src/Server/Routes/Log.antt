-- ===== src/Server/Routes/Log.antt =====
-- What the request log says of a request.
use wingstation.Prelude.{true, List, [], ◌∷◌, ◌++◌, ◌≡◌, ◌⊎◌, ℕ}
use wingstation.Config.{Config}
use wingstation.Server.Http.{Request, Call, hijacked, Reply, replied, sent_status}
use wingstation.Server.Site.{Site}
use wingstation.Server.Middleware.{LogEntry, World}
use wingstation.Server.Middleware.Status.{is_orderly}

abbrev pub entry : Request → ℕ → LogEntry
entry r status = record { method = r.method; path = r.path; status = status }

-- The status of the log against the calls: the one that is sent, or 200 after an upgrade, for which
-- 101 is sent.
abbrev pub IsLogged : ℕ → List Call → Type 0
IsLogged status calls =
    (status ≡ sent_status calls)
    ⊎ ((status ≡ 200) × (calls ≡ hijacked 101 ∷ []) × (sent_status calls ≡ 101))

-- A request is answered, without a panic, and the log has one entry more: the request's method
-- and path, with the status.
pub record IsServed (r : Request) (w : World) (out : Reply × World) : Type 0 where
  pub calls : List Call
  pub answered : out.0 ≡ replied calls
  pub status : ℕ
  pub logged : out.1.log ≡ w.log ++ entry r status ∷ []
  pub is_logged : IsLogged status calls

-- Calls in order, or those of an upgrade.
abbrev AreSent : List Call → Type 0
AreSent calls = (is_orderly calls ≡ true) ⊎ (calls ≡ hijacked 101 ∷ [])
