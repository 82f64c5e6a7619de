-- ===== src/Store/Events.antt =====
-- internal/store/sqlite.go: the `events` table.
pub mod Atomic
pub mod Recent
use tracelab.Prelude.{
  ℕ, suc, ◌+◌, ◌-◌, String, Bool, true, false, ◌&&◌, Option, none, some, List, [], ◌∷◌, ◌++◌, ℤ,
  leb, ltb, ◌==◌, str_eq, if◌then◌else◌, length, take, filter, Time, unix, is_zero, unix_nano,
}
use tracelab.Store.Query.{session_exists, limit_or, order_by}
use tracelab.Store.Schema.{Event, EventRow, Db, StoreError, engine, Result, ok, err}

-- `if len(e.Meta) > 0 { meta = string(e.Meta) }`
abbrev pub meta_column : String → Option String
meta_column m = if str_eq m "" then none else some m

-- The row that an event becomes; `now` is the clock, for a zero time.
abbrev pub row_of : ℕ → String → ℤ → Event → EventRow
row_of id session_id now e = record {
  id = id;
  session_id = session_id;
  ts = unix_nano (if is_zero e.ts then unix now else e.ts);
  source = e.source;
  level = e.level;
  msg = e.msg;
  meta = meta_column e.meta;
}

-- The INSERTs of one transaction, from call `n` of the engine on; `none` when one fails, or when
-- the foreign key finds no session. The clock is read once for each event.
unfoldable pub insert_rows : (ℕ → Bool) → (ℕ → ℤ) → ℕ → String → List Event → Db → Option Db
insert_rows io clock n session_id [] tx = some tx
insert_rows io clock n session_id (e ∷ es) tx =
    let id = tx.event_seq + 1 in
    let rest =
      insert_rows io clock (n + 1) session_id es (record tx {
        events = tx.events ++ row_of id session_id (clock n) e ∷ [];
        event_seq = id;
      }) in
    if io n && session_exists session_id tx.sessions then rest else none

-- The COMMIT, or the rollback to `db`.
abbrev pub commit : Bool → Option Db → Db → Result (Unit {0}) × Db
commit committed none db = (err engine, db)
commit committed (some tx) db = if committed then (ok tt, tx) else (err engine, db)

-- `InsertEvents`: call 0 is BEGIN, call 1 the prepare, then an INSERT for each event, and COMMIT.
unfoldable pub insert_events :
    (ℕ → Bool) → (ℕ → ℤ) → String → List Event → Db → Result (Unit {0}) × Db
insert_events io clock session_id [] db = (ok tt, db)
insert_events io clock session_id (e ∷ es) db =
    if io 0 && io 1
    then commit (io (2 + length (e ∷ es))) (insert_rows io clock 2 session_id (e ∷ es) db) db
    else (err engine, db)

abbrev pub by_id : EventRow → EventRow → Bool
by_id a b = leb a.id b.id

-- `EventsSince`, of the rows (the scan into `Event` is in `Http.Events`).
unfoldable pub events_since : Db → String → ℕ → ℤ → List EventRow
events_since db session_id since_id limit = take (limit_or 500 limit) (
    order_by by_id
      (filter (λ (r : EventRow). str_eq r.session_id session_id && ltb since_id r.id) db.events))
