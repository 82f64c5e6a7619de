-- ===== src/Http/Ingest.antt =====
-- internal/http/handlers.go: POST /ingest.
--
-- Crash detection (internal/crash) is an interface here: what it finds in an event, and the
-- fingerprint of that; Detector fills it. The hub is the list of the events that it is given.
pub mod Outcome
pub mod Detector
use tracelab.Http.Events.{Response, bad_request, internal_error, success}
use tracelab.Prelude.{
  ℕ, zero, suc, ◌+◌, String, ◌≡◌, refl, ap, ◌∙◌, Bool, true, false, Option, none, some, List, [],
  ◌∷◌, map, ℤ, str_eq, if◌then◌else◌, is_positive, Bytes, Time, zero_time, unix, is_zero, unix_nano,
  zero_nano, length, ◌⊎◌, inl, inr,
}
use tracelab.Store.Crashes.{upsert_crash, write_crash, find_crash}
use tracelab.Store.Crashes.Counting.{IsRegistered}
use tracelab.Store.Crashes.Registered.{upsert_crash-IsRegistered}
use tracelab.Store.Events.{insert_events, row_of}
use tracelab.Store.Events.Atomic.{appended, insert_events_atomic}
use tracelab.Store.Schema.{Event, EventRow, Db, StoreError, engine, Result, ok, err}
use tracelab.Ws.Hub.{Event as WsEvent}

-- `crash.Detect`, of which the handler reads the normalized stack, and `crash.Fingerprint`.
pub record CrashDetector : Type 0 where
  pub detect : String → String → Bytes → Option Bytes
  pub fingerprint : Bytes → String

-- `ingestEvent`
pub record IngestEvent : Type 0 where
  pub ts : ℤ
  pub source : String
  pub level : String
  pub msg : Bytes
  pub meta : String

-- The batch that is stored.
abbrev pub to_event : IngestEvent → Event
to_event e = record {
  id = 0;
  session_id = "";
  ts = if is_positive e.ts then unix e.ts else zero_time;
  source = e.source;
  level = e.level;
  msg = e.msg;
  meta = e.meta;
}

-- The event that is broadcast.
abbrev pub to_ws : String → Event → WsEvent
to_ws session e = record {
  session_id = session;
  ts = unix_nano e.ts;
  source = e.source;
  level = e.level;
  msg = e.msg;
  meta = e.meta;
}

abbrev some_fingerprint : String → Option String
some_fingerprint fp = if str_eq fp "" then none else some fp

abbrev pub fingerprint_of : CrashDetector → Option Bytes → Option String
fingerprint_of det none = none
fingerprint_of det (some stack) = some_fingerprint (det.fingerprint stack)

-- One event of `detectAndUpsertCrashes`; the error of the upsert is only logged.
abbrev pub upsert_found : (ℕ → Bool) → ℤ → String → Event → Option String → Db → Db
upsert_found io now session e none db = db
upsert_found io now session e (some fp) db =
    (upsert_crash io now session (if is_zero e.ts then unix now else e.ts) fp e.msg db).1

-- `detectAndUpsertCrashes`: the k-th event has its own calls of the engine and its own clock.
unfoldable pub detect_and_upsert_crashes :
    CrashDetector → (ℕ → ℕ → Bool) → (ℕ → ℤ) → ℕ → String → List Event → Db → Db
detect_and_upsert_crashes det io clock k session [] db = db
detect_and_upsert_crashes det io clock k session (e ∷ es) db =
    let fp = fingerprint_of det (det.detect e.source e.level e.msg) in
    detect_and_upsert_crashes det io clock (suc k) session es
      (upsert_found (io k) (clock k) session e fp db)

-- What a request leaves: the answer, the events that the hub was given, and the tables.
pub record Ingested : Type 0 where
  pub reply : Response ℕ
  pub published : List WsEvent
  pub db : Db

abbrev pub after_insert :
    CrashDetector
    → Bool
    → (ℕ → ℕ → Bool)
    → (ℕ → ℤ)
    → String
    → List Event
    → Result (Unit {0}) × Db
    → Ingested
after_insert det has_hub io clock session batch (err e, db) = record {
  reply = internal_error;
  published = [];
  db = db;
}
after_insert det has_hub io clock session batch (ok u, db) = record {
  reply = success (length batch);
  published = if has_hub then map (to_ws session) batch else [];
  db = detect_and_upsert_crashes det io clock 0 session batch db;
}

abbrev pub non_empty :
    CrashDetector
    → Bool
    → (ℕ → Bool)
    → (ℕ → ℤ)
    → (ℕ → ℕ → Bool)
    → (ℕ → ℤ)
    → String
    → List Event
    → Db
    → Ingested
non_empty det has_hub insert_io insert_clock io clock session [] db = record {
  reply = success 0;
  published = [];
  db = db;
}
non_empty det has_hub insert_io insert_clock io clock session (e ∷ es) db =
    after_insert det has_hub io clock session (e ∷ es)
      (insert_events insert_io insert_clock session (e ∷ es) db)

-- `ingest`, on the decoded request; `insert_io` and `insert_clock` answer
-- `InsertEvents`, `io k` and `clock k` the upsert for the k-th event.
unfoldable pub ingest :
    CrashDetector
    → Bool
    → (ℕ → Bool)
    → (ℕ → ℤ)
    → (ℕ → ℕ → Bool)
    → (ℕ → ℤ)
    → String
    → List IngestEvent
    → Db
    → Ingested
ingest det has_hub insert_io insert_clock io clock session events db =
    let done =
      non_empty det has_hub insert_io insert_clock io clock session (map to_event events) db in
    if str_eq session ""
    then record { reply = bad_request "session_id required"; published = []; db = db }
    else done
