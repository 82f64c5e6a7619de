-- ===== src/Store/Schema.antt =====
-- internal/store/sqlite.go, internal/store/migrations/0001_initial.up.sql: rows and tables.
use tracelab.Prelude.{ℕ, String, Option, List, [], ℤ, Time, Bytes}

-- `store.Event`; `meta` is the raw JSON, empty for none.
pub record Event : Type 0 where
  pub id : ℕ
  pub session_id : String
  pub ts : Time
  pub source : String
  pub level : String
  pub msg : Bytes
  pub meta : String

-- A row of `sessions`.
pub record SessionRow : Type 0 where
  pub id : String
  pub label : String
  pub started_at : ℤ
  pub ended_at : Option ℤ

-- A row of `events`.
pub record EventRow : Type 0 where
  pub id : ℕ
  pub session_id : String
  pub ts : ℤ
  pub source : String
  pub level : String
  pub msg : Bytes
  pub meta : Option String

-- A row of `crashes`.
pub record CrashRow : Type 0 where
  pub id : ℕ
  pub session_id : String
  pub ts : ℤ
  pub fingerprint : String
  pub stacktrace : Bytes
  pub count : ℕ

-- The tables of migration 0001, with the last id that AUTOINCREMENT gave out.
pub record Db : Type 0 where
  pub sessions : List SessionRow
  pub events : List EventRow
  pub event_seq : ℕ
  pub crashes : List CrashRow
  pub crash_seq : ℕ

abbrev pub empty : Db
empty = record { sessions = []; events = []; event_seq = 0; crashes = []; crash_seq = 0 }

-- What a store method may fail with: the engine, `sql.ErrNoRows`, or a refused argument.
pub data StoreError : Type 0 where
  engine no_rows invalid : StoreError

pub data Result {ℓ} (A : Type ℓ) : Type ℓ where
  ok : A → Result A
  err : StoreError → Result A
