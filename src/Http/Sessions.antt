-- ===== src/Http/Sessions.antt =====
-- internal/http/handlers.go: POST /session/start and GET /sessions.
use tracelab.Prelude.{
  ◌≡◌, ◌<◌, ◌-◌, ◌++◌, suc, ap, int_leb, All, take, Bool-cases, inl, inr, arith, ℕ, String, Bool,
  true, false, ◌&&◌, Option, none, some, List, [], ◌∷◌, map, ℤ, pos, negsuc, leb, not,
  if◌then◌else◌, Bytes, atoi,
}
use tracelab.Http.Events.{Response, internal_error, success}
use tracelab.Store.Schema.{SessionRow, Db, Result, ok, err}
use tracelab.Store.Sessions.{create_session}
use tracelab.Store.Query.{limit_or, session_exists, order_by, order_by_last}
use tracelab.Store.Sessions.Listing.{started_last, list_sessions}

-- `sessionStartResp`
pub record SessionStartResp : Type 0 where
  pub session_id : String
  pub started_at : ℤ

abbrev start_reply : ℤ → Result String × Db → Response SessionStartResp × Db
start_reply now (ok id, db) = (success (record { session_id = id; started_at = now }), db)
start_reply now (err e, db) = (internal_error, db)

-- `sessionStart`, on the decoded request. The clock is read by the store, and again for the answer.
unfoldable pub session_start :
    Bool → Option String → ℤ → ℤ → String → Db → Response SessionStartResp × Db
session_start io id now answered label db = start_reply answered (create_session io id now label db)

-- `sessionView`; there is no field for a session that has not ended.
pub record SessionView : Type 0 where
  pub id : String
  pub label : String
  pub started_at : ℤ
  pub ended_at : Option ℤ

abbrev pub session_view : SessionRow → SessionView
session_view s = record {
  id = s.id;
  label = s.label;
  started_at = s.started_at;
  ended_at = s.ended_at;
}

-- A limit that is no number from 1 to 1000 gives the default.
abbrev in_range : Option ℤ → ℕ
in_range none = 50
in_range (some (pos n)) = if leb 1 n && leb n 1000 then n else 50
in_range (some (negsuc n)) = 50

in_range-positive : (n : Option ℤ) → 0 < in_range n
in_range-positive none = omega arith
in_range-positive (some (pos n)) = ground arith
in_range-positive (some (negsuc n)) = omega arith

unfoldable pub sessions_limit : Bytes → ℕ
sessions_limit [] = 50
sessions_limit (c ∷ cs) = in_range (atoi (c ∷ cs))

-- `listSessions`
unfoldable pub list_sessions_reply : Bool → Db → Bytes → Response (List SessionView)
list_sessions_reply io db limit =
    if io
    then success (map session_view (list_sessions db (pos (sessions_limit limit))))
    else internal_error

sessions_limit-positive : (limit : Bytes) → 0 < sessions_limit limit
unfolding sessions_limit
sessions_limit-positive [] = omega arith
sessions_limit-positive (c ∷ cs) = in_range-positive (atoi (c ∷ cs))

first_view :
    (row : SessionRow) (ss : List SessionRow) (n : ℕ)
    → 0 < n
    → All (λ (s : SessionRow). int_leb row.started_at s.started_at ≡ false) ss
    → map session_view (take (limit_or 50 (pos n)) (order_by started_last (ss ++ row ∷ [])))
      ≡ session_view row ∷ map session_view (take (n - 1) (order_by started_last ss))
first_view row ss n h newest =
    let limit : limit_or 50 (pos n) ≡ suc (n - 1) = ground (arith, h) in
    rw (order_by_last started_last row ss newest)
      (ap (λ k. map session_view (take k (row ∷ order_by started_last ss))) limit)

-- When POST /session/start answers with the id of a session, and every other session started before it,
-- GET /sessions answers with the new session at the head of what it answered before, whatever `limit` says.
pub list_sessions_reply-session_start :
    (io : Bool) (id label : String) (now answered : ℤ) (db : Db) (limit : Bytes)
    → (session_start io (some id) now answered label db).0
      ≡ success (record { session_id = id; started_at = answered })
    → All (λ (s : SessionRow). int_leb now s.started_at ≡ false) db.sessions
    → list_sessions_reply true (session_start io (some id) now answered label db).1 limit
      ≡ success (
          record { id = id; label = label; started_at = now; ended_at = none }
          ∷ map session_view (take (sessions_limit limit - 1) (order_by started_last db.sessions)))
unfolding list_sessions_reply session_start create_session list_sessions
list_sessions_reply-session_start io id label now answered db limit h newest =
    let row : SessionRow = record { id = id; label = label; started_at = now; ended_at = none } in
    elim (Bool-cases (io && not (session_exists id db.sessions))) [
      | inl e ↦ rw e (
          ap success (
            first_view row db.sessions (sessions_limit limit) (sessions_limit-positive limit)
              newest))
      | inr e ↦
          let k : Path (Response SessionStartResp) internal_error
              (success (record { session_id = id; started_at = answered })) =
            rw e at h in
          ground (arith, k)
    ]
