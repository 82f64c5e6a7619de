-- ===== src/Http/Ingest/Outcome.antt =====
-- internal/http/handlers.go: what POST /ingest leaves, whatever fails on the way.
use tracelab.Http.Events.{internal_error, success}
use tracelab.Http.Ingest.{
  CrashDetector, IngestEvent, Ingested, to_event, to_ws, fingerprint_of, upsert_found,
  detect_and_upsert_crashes, ingest,
}
use tracelab.Ws.Hub.{Event as WsEvent}
use tracelab.Prelude.{
  ◌≢◌, ◌++◌, ◌+◌, ap, map-append, Bool-cases, true, ℕ, suc, String, ◌≡◌, refl, ◌∙◌, Bool, false,
  Option, none, some, List, [], ◌∷◌, map, ℤ, str_eq, if◌then◌else◌, is_positive, Bytes, Time, unix,
  is_zero, unix_nano, zero_nano, length, ◌⊎◌, inl, inr, arith,
}
use tracelab.Store.Crashes.{upsert_crash, write_crash, find_crash}
use tracelab.Store.Crashes.Counting.{IsRegistered}
use tracelab.Store.Crashes.Registered.{upsert_crash-IsRegistered}
use tracelab.Store.Events.Atomic.{appended, rows_of, insert_events_atomic}
use tracelab.Store.Schema.{Event, EventRow, Db}

-- What an upsert of a crash leaves as it is.
abbrev SameEvents : Db → Db → Type 0
SameEvents a b = (a.events ≡ b.events) × (a.event_seq ≡ b.event_seq)

write_crash-SameEvents :
    (found : Option ℕ) (session : String) (ts : ℤ) (fp : String) (stack : Bytes) (db : Db)
    → SameEvents (write_crash found session ts fp stack db) db
write_crash-SameEvents none session ts fp stack db = (refl, refl)
write_crash-SameEvents (some id) session ts fp stack db = (refl, refl)

upsert_crash-SameEvents :
    (io : ℕ → Bool) (now : ℤ) (session : String) (ts : Time) (fp : String) (stack : Bytes) (db : Db)
    → SameEvents (upsert_crash io now session ts fp stack db).1 db
unfolding upsert_crash
upsert_crash-SameEvents io now session ts fp stack db =
    let w =
      write_crash-SameEvents (find_crash session fp db.crashes) session
        (unix_nano (if is_zero ts then unix now else ts)) fp stack db in
    (ground (arith, w.0), ground (arith, w.1))

module _ (det : CrashDetector) (io : ℕ → ℕ → Bool) (clock : ℕ → ℤ) (session : String) where
  found-SameEvents :
      (k : ℕ) (e : Event) (fp : Option String) (db : Db)
      → SameEvents (upsert_found (io k) (clock k) session e fp db) db
  found-SameEvents k e none db = (refl, refl)
  found-SameEvents k e (some fp) db = upsert_crash-SameEvents (io k) (clock k) session _ fp e.msg db

  crashes-SameEvents :
      (k : ℕ) (es : List Event) (db : Db)
      → SameEvents (detect_and_upsert_crashes det io clock k session es db) db
  unfolding detect_and_upsert_crashes
  crashes-SameEvents k [] db = (refl, refl)
  crashes-SameEvents k (e ∷ es) db =
      let fp = fingerprint_of det (det.detect e.source e.level e.msg) in
      let a = found-SameEvents k e fp db in
      let b = crashes-SameEvents (suc k) es (upsert_found (io k) (clock k) session e fp db) in
      (b.0 ∙ a.0, b.1 ∙ a.1)

  found-IsRegistered :
      (k : ℕ) (e : Event) (fp : Option String) (db : Db)
      → IsRegistered db
      → IsRegistered (upsert_found (io k) (clock k) session e fp db)
  found-IsRegistered k e none db h = h
  found-IsRegistered k e (some fp) db h =
      (upsert_crash-IsRegistered (io k) (clock k) session _ fp e.msg db h).0

  crashes-IsRegistered :
      (k : ℕ) (es : List Event) (db : Db)
      → IsRegistered db
      → IsRegistered (detect_and_upsert_crashes det io clock k session es db)
  unfolding detect_and_upsert_crashes
  crashes-IsRegistered k [] db h = h
  crashes-IsRegistered k (e ∷ es) db h =
      let fp = fingerprint_of det (det.detect e.source e.level e.msg) in
      crashes-IsRegistered (suc k) es _ (found-IsRegistered k e fp db h)

-- The two ways a request with events may end: refused whole, or stored and broadcast whole.
abbrev pub Outcome : (ℕ → ℤ) → Bool → String → List Event → Db → Ingested → Type 0
Outcome insert_clock has_hub session batch db r =
    ((r.reply ≡ internal_error) × (r.published ≡ []) × (r.db ≡ db))
    ⊎ ((r.reply ≡ success (length batch))
        × (r.published ≡ (if has_hub then map (to_ws session) batch else []))
        × (r.db.events ≡ (appended insert_clock 2 session batch db).events)
        × (IsRegistered db → IsRegistered r.db))

-- Whichever calls of the engine fail, in the insert or in the upserts of crashes, a request with
-- a session and at least one event is answered by an error, with nothing broadcast and every table
-- as it was; or it is accepted, all its events have become rows in order and were broadcast in
-- order if a hub is set, and no crash has two rows.
pub ingest-Outcome :
    (det : CrashDetector) (has_hub : Bool) (insert_io : ℕ → Bool) (insert_clock : ℕ → ℤ)
    (io : ℕ → ℕ → Bool) (clock : ℕ → ℤ) (session : String) (e : IngestEvent) (es : List IngestEvent)
    (db : Db)
    → str_eq session "" ≡ false
    → Outcome insert_clock has_hub session
        (map to_event (e ∷ es))
        db
        (ingest det has_hub insert_io insert_clock io clock session (e ∷ es) db)
unfolding ingest
ingest-Outcome det has_hub insert_io insert_clock io clock session e es db named =
    let batch = map to_event (e ∷ es) in
    elim (insert_events_atomic insert_io insert_clock session batch db) [
      | inl h ↦ rw (named, h) (inl (refl, refl, refl))
      | inr h ↦
          rw (named, h)
            (inr (
              refl,
              refl,
              (crashes-SameEvents det io clock session 0 batch
                  (appended insert_clock 2 session batch db)).0,
              λ reg.
                  crashes-IsRegistered det io clock session 0 batch
                    (appended insert_clock 2 session batch db)
                    (record { rising = reg.rising; below = reg.below; unique = reg.unique }),
            ))
    ]

-- The times of the rows that are stored and of the events that are broadcast, from those that were sent.
abbrev pub stored_times : (ℕ → ℤ) → ℕ → List IngestEvent → List ℤ
stored_times clock n [] = []
stored_times clock n (e ∷ es) =
    (if is_positive e.ts then e.ts else clock n) ∷ stored_times clock (n + 1) es

abbrev pub broadcast_time : IngestEvent → ℤ
broadcast_time e = if is_positive e.ts then e.ts else zero_nano

rows_of-times :
    (clock : ℕ → ℤ) (n seq : ℕ) (session : String) (es : List IngestEvent)
    → map (λ (r : EventRow). r.ts) (rows_of clock n seq session (map to_event es))
      ≡ stored_times clock n es
rows_of-times clock n seq session [] = refl
rows_of-times clock n seq session (e ∷ es) =
    let rest = rows_of-times clock (n + 1) (seq + 1) session es in
    elim (Bool-cases (is_positive e.ts)) [
      | inl p ↦ rw p (ap (λ u. e.ts ∷ u) rest)
      | inr p ↦ rw p (ap (λ u. clock n ∷ u) rest)
    ]

to_ws-times :
    (session : String) (es : List IngestEvent)
    → map (λ (w : WsEvent). w.ts) (map (to_ws session) (map to_event es)) ≡ map broadcast_time es
to_ws-times session [] = refl
to_ws-times session (e ∷ es) = elim (Bool-cases (is_positive e.ts)) [
  | inl p ↦ rw p (ap (λ u. e.ts ∷ u) (to_ws-times session es))
  | inr p ↦ rw p (ap (λ u. zero_nano ∷ u) (to_ws-times session es))
]

-- When POST /ingest accepts a request with events and a hub is set, the rows it adds and the events it
-- broadcasts have, one for one, the times that were sent where they are positive; where they are not, the
-- row has the time of its insert, and the broadcast the nanoseconds of Go's zero time.
pub ingest-times :
    (det : CrashDetector) (insert_io : ℕ → Bool) (insert_clock : ℕ → ℤ) (io : ℕ → ℕ → Bool)
    (clock : ℕ → ℤ) (session : String) (e : IngestEvent) (es : List IngestEvent) (db : Db)
    → str_eq session "" ≡ false
    → (ingest det true insert_io insert_clock io clock session (e ∷ es) db).reply ≢ internal_error
    → let r = ingest det true insert_io insert_clock io clock session (e ∷ es) db in
      (map (λ (w : WsEvent). w.ts) r.published ≡ map broadcast_time (e ∷ es))
      × (map (λ (row : EventRow). row.ts) r.db.events
          ≡ map (λ (row : EventRow). row.ts) db.events ++ stored_times insert_clock 2 (e ∷ es))
ingest-times det insert_io insert_clock io clock session e es db named accepted =
    elim (ingest-Outcome det true insert_io insert_clock io clock session e es db named) [
      | inl h ↦ absurd (accepted h.0)
      | inr h ↦ (
        ap (map (λ (w : WsEvent). w.ts)) h.1 ∙ to_ws-times session (e ∷ es),
        ap (map (λ (row : EventRow). row.ts)) h.2
            ∙ map-append (λ (row : EventRow). row.ts) db.events _
            ∙ ap (λ u. map (λ (row : EventRow). row.ts) db.events ++ u)
                (rows_of-times insert_clock 2 db.event_seq session (e ∷ es)),
      )
    ]
