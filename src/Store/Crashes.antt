-- ===== src/Store/Crashes.antt =====
-- internal/store/sqlite.go: the `crashes` table.
pub mod Listing
pub mod Counting
pub mod Registered
pub mod Owners
use tracelab.Prelude.{
  ℕ, ◌+◌, String, Bool, true, false, ◌&&◌, ◌||◌, Option, none, some, List, [], ◌∷◌, ◌++◌, ℤ, leb,
  ◌==◌, str_eq, if◌then◌else◌, filter, take, Time, unix, is_zero, unix_nano, int_leb, int_eq, Bytes,
}
use tracelab.Store.Query.{session_exists, limit_or, order_by}
use tracelab.Store.Schema.{CrashRow, Db, StoreError, engine, no_rows, invalid, Result, ok, err}

-- `WHERE session_id = ? AND fingerprint = ?`
abbrev pub is_at : String → String → CrashRow → Bool
is_at session fingerprint c = str_eq c.session_id session && str_eq c.fingerprint fingerprint

-- `SELECT id FROM crashes ... LIMIT 1`
abbrev pub find_crash : String → String → List CrashRow → Option ℕ
find_crash session fingerprint [] = none
find_crash session fingerprint (c ∷ cs) =
    if is_at session fingerprint c then some c.id else find_crash session fingerprint cs

-- `UPDATE crashes SET count = count + 1, ts = ? WHERE id = ?`
abbrev pub bump : ℕ → ℤ → List CrashRow → List CrashRow
bump id ts [] = []
bump id ts (c ∷ cs) =
    (if c.id == id then record c { ts = ts; count = c.count + 1 } else c) ∷ bump id ts cs

-- The UPDATE of the row found, or the INSERT.
abbrev pub write_crash : Option ℕ → String → ℤ → String → Bytes → Db → Db
write_crash (some id) session ts fingerprint stacktrace db = record db {
  crashes = bump id ts db.crashes;
}
write_crash none session ts fingerprint stacktrace db =
    let row : CrashRow = record {
      id = db.crash_seq + 1;
      session_id = session;
      ts = ts;
      fingerprint = fingerprint;
      stacktrace = stacktrace;
      count = 1;
    } in
    record db { crashes = db.crashes ++ row ∷ []; crash_seq = db.crash_seq + 1 }

-- `UpsertCrash`: call 0 of the engine is BEGIN, 1 and 2 the SELECTs, 3 the UPDATE or the INSERT, 4
-- the COMMIT. Every error rolls back. `now` is the clock, for a zero time.
unfoldable pub upsert_crash :
    (ℕ → Bool) → ℤ → String → Time → String → Bytes → Db → Result (Unit {0}) × Db
upsert_crash io now session ts fingerprint stacktrace db =
    let stamp = unix_nano (if is_zero ts then unix now else ts) in
    let found = find_crash session fingerprint db.crashes in
    if str_eq fingerprint ""
    then (err invalid, db)
    else if io 0 && io 1
    then (if session_exists session db.sessions
        then (if io 2 && io 3 && io 4
            then (ok tt, write_crash found session stamp fingerprint stacktrace db)
            else (err engine, db))
        else (err no_rows, db))
    else (err engine, db)

-- `ORDER BY ts DESC, id DESC`
abbrev pub newest_first : CrashRow → CrashRow → Bool
newest_first a b = if int_eq a.ts b.ts then leb b.id a.id else int_leb b.ts a.ts

-- `CrashesBySession`
unfoldable pub crashes_by_session : Db → String → ℤ → List CrashRow
crashes_by_session db session limit =
    take (limit_or 500 limit)
      (order_by newest_first (filter (λ (c : CrashRow). str_eq c.session_id session) db.crashes))
