-- ===== src/Store/Sessions.antt =====
-- internal/store/sqlite.go, internal/http/handlers.go: the `sessions` table and POST /session/end.
pub mod Like
pub mod Listing
pub mod Ids
use tracelab.Prelude.{
  String, ◌≡◌, refl, sym, ap, Bool, true, false, not, ◌&&◌, Option, none, some, List, [], ◌∷◌, ◌++◌,
  map, ℤ, str_eq, eq_iff, if◌then◌else◌, Bool-cases, inl, inr, arith,
}
use tracelab.Store.Query.{session_exists}
use tracelab.Store.Schema.{SessionRow, Db, engine, no_rows, Result, ok, err}

-- `CreateSession`. The id, from the clock and the random source, is given; it is `none` when that
-- source fails. The INSERT fails on an id that is taken.
unfoldable pub create_session : Bool → Option String → ℤ → String → Db → Result String × Db
create_session io none now label db = (err engine, db)
create_session io (some id) now label db =
    let row : SessionRow = record { id = id; label = label; started_at = now; ended_at = none } in
    if io && not (session_exists id db.sessions)
    then (ok id, record db { sessions = db.sessions ++ row ∷ [] })
    else (err engine, db)

-- `UPDATE sessions SET ended_at = ? WHERE id = ?`
abbrev pub set_ended : String → ℤ → List SessionRow → List SessionRow
set_ended id now [] = []
set_ended id now (s ∷ ss) =
    (if str_eq s.id id then record s { ended_at = some now } else s) ∷ set_ended id now ss

-- `EndSession`; the row count is zero when no row has the id.
unfoldable pub end_session : Bool → ℤ → String → Db → Result (Unit {0}) × Db
end_session io now id db =
    if io
    then (if session_exists id db.sessions
        then (ok tt, record db { sessions = set_ended id now db.sessions })
        else (err no_rows, db))
    else (err engine, db)

abbrev session_in : String → List SessionRow → Result SessionRow
session_in id [] = err no_rows
session_in id (s ∷ ss) = if str_eq s.id id then ok s else session_in id ss

-- `SessionByID`
unfoldable pub session_by_id : Db → String → Result SessionRow
session_by_id db id = session_in id db.sessions

-- The status codes of `sessionEnd`.
pub data EndReply : Type 0 where
  session_id_required session_not_found internal_error no_content : EndReply

abbrev end_reply : Result (Unit {0}) × Db → EndReply × Db
end_reply (ok u, db) = (no_content, db)
end_reply (err no_rows, db) = (session_not_found, db)
end_reply (err e, db) = (internal_error, db)

-- `sessionEnd`, on the decoded request.
unfoldable pub session_end : Bool → ℤ → String → Db → EndReply × Db
session_end io now id db =
    let done = end_reply (end_session io now id db) in
    if str_eq id "" then (session_id_required, db) else done

session_in-append :
    (id : String) (r : SessionRow) (ss : List SessionRow)
    → session_exists id ss ≡ false
    → str_eq r.id id ≡ true
    → session_in id (ss ++ r ∷ []) ≡ ok r
session_in-append id r [] h e = rw e refl
session_in-append id r (s ∷ ss) h e =
    let f : str_eq s.id id ≡ false = ground (arith, h) in
    rw f (session_in-append id r ss (ground (arith, h)) e)

-- A session that was created is there under its id, with its label, its start and no end.
pub session_by_id-create_session :
    (io : Bool) (id : String) (now : ℤ) (label : String) (db : Db)
    → (create_session io (some id) now label db).0 ≡ ok id
    → session_by_id (create_session io (some id) now label db).1 id
      ≡ ok (record { id = id; label = label; started_at = now; ended_at = none })
unfolding create_session session_by_id
session_by_id-create_session io id now label db h =
    elim (Bool-cases (io && not (session_exists id db.sessions))) [
      | inl e ↦
          rw e (session_in-append id _ db.sessions (ground (arith, e)) ((eq_iff id id).1 refl))
      | inr e ↦ let k : Path (Result String) (err engine) (ok id) = rw e at h in ground (arith, k)
    ]

abbrev pub end_of : ℤ → Result SessionRow → Result SessionRow
end_of now (ok s) = ok (record s { ended_at = some now })
end_of now (err e) = err e

session_in-set_ended :
    (id other : String) (now : ℤ) (ss : List SessionRow)
    → session_in other (set_ended id now ss)
      ≡ (if str_eq other id then end_of now (session_in other ss) else session_in other ss)
session_in-set_ended id other now [] = ground arith
session_in-set_ended id other now (s ∷ ss) =
    let rest = session_in-set_ended id other now ss in
    elim (Bool-cases (str_eq s.id other)) [
      | inl f ↦
          let same : str_eq other id ≡ str_eq s.id id =
            sym (ap (λ u. str_eq u id) ((eq_iff s.id other).0 f)) in
          elim (Bool-cases (str_eq s.id id)) [
            | inl e ↦ rw (same, e, f) refl
            | inr e ↦ rw (same, e, f) refl
          ]
      | inr f ↦ elim (Bool-cases (str_eq s.id id)) [
        | inl e ↦ rw (e, f) rest
        | inr e ↦ rw (e, f) rest
      ]
    ]

set_ended-ids :
    (id : String) (now : ℤ) (ss : List SessionRow)
    → map (λ (s : SessionRow). s.id) (set_ended id now ss) ≡ map (λ (s : SessionRow). s.id) ss
set_ended-ids id now [] = refl
set_ended-ids id now (s ∷ ss) = elim (Bool-cases (str_eq s.id id)) [
  | inl e ↦ rw e (ap (λ u. s.id ∷ u) (set_ended-ids id now ss))
  | inr e ↦ rw e (ap (λ u. s.id ∷ u) (set_ended-ids id now ss))
]

-- The tables of events and crashes, with their counters, are the same.
abbrev pub SameLogs : Db → Db → Type 0
SameLogs a b =
    (a.events ≡ b.events)
    × (a.event_seq ≡ b.event_seq)
    × (a.crashes ≡ b.crashes)
    × (a.crash_seq ≡ b.crash_seq)

-- Ending a session that is there succeeds and sets its end, again if it had one; the row of every other
-- session is found as it was, the same ids are stored in the same order, and the tables of events and
-- crashes do not change.
pub session_by_id-end_session :
    (now : ℤ) (id other : String) (db : Db)
    → session_exists id db.sessions ≡ true
    → ((end_session true now id db).0 ≡ ok tt)
      × (session_by_id (end_session true now id db).1 other ≡ (
          if str_eq other id then end_of now (session_by_id db other) else session_by_id db other))
      × (map (λ (s : SessionRow). s.id) (end_session true now id db).1.sessions
          ≡ map (λ (s : SessionRow). s.id) db.sessions)
      × SameLogs (end_session true now id db).1 db
unfolding end_session session_by_id
session_by_id-end_session now id other db h = rw h (
  refl,
  session_in-set_ended id other now db.sessions,
  set_ended-ids id now db.sessions,
  (refl, refl, refl, refl),
)
