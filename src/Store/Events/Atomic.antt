-- ===== src/Store/Events/Atomic.antt =====
-- internal/store/sqlite.go: the batches of `InsertEvents` and their failures.
use tracelab.Prelude.{
  ℕ, ◌+◌, ◌≤◌, String, ◌≡◌, ◌≢◌, ◌⊎◌, inl, inr, Bool, true, false, none, some, List, [], ◌∷◌, ◌++◌,
  append-nil, append_assoc, arith, ℤ, ltb, length, All, All-append,
}
use tracelab.Store.Events.{row_of, insert_rows, insert_events}
use tracelab.Store.Query.{session_exists, Ordered}
use tracelab.Store.Schema.{Event, EventRow, Db, engine, ok, err}

-- The rows of a batch: consecutive ids behind `seq`, the events in order.
abbrev pub rows_of : (ℕ → ℤ) → ℕ → ℕ → String → List Event → List EventRow
rows_of clock n seq session_id [] = []
rows_of clock n seq session_id (e ∷ es) =
    row_of (seq + 1) session_id (clock n) e ∷ rows_of clock (n + 1) (seq + 1) session_id es

abbrev pub appended : (ℕ → ℤ) → ℕ → String → List Event → Db → Db
appended clock n session_id es db = record db {
  events = db.events ++ rows_of clock n db.event_seq session_id es;
  event_seq = db.event_seq + length es;
}

module _ (io : ℕ → Bool) (clock : ℕ → ℤ) (session_id : String) where
  insert_rows-cases :
      (n : ℕ) (es : List Event) (tx : Db)
      → (insert_rows io clock n session_id es tx ≡ none)
        ⊎ (insert_rows io clock n session_id es tx ≡ some (appended clock n session_id es tx))
  unfolding insert_rows
  insert_rows-cases n [] tx = inr (ground (arith, append-nil tx.events))
  insert_rows-cases n (e ∷ es) tx =
      let tx' = record tx {
        events = tx.events ++ row_of (tx.event_seq + 1) session_id (clock n) e ∷ [];
        event_seq = tx.event_seq + 1;
      } in
      ground (
        arith,
        insert_rows-cases (n + 1) es tx',
        append_assoc tx.events (row_of (tx.event_seq + 1) session_id (clock n) e ∷ [])
            (rows_of clock (n + 1) (tx.event_seq + 1) session_id es),
      )

  -- Whichever calls of the engine fail: `InsertEvents` reports an error and leaves every table as
  -- it was, or it reports none and has appended one row for each event, in order, under
  -- consecutive new ids.
  pub insert_events_atomic :
      (es : List Event) (db : Db)
      → (insert_events io clock session_id es db ≡ (err engine, db))
        ⊎ (insert_events io clock session_id es db ≡ (ok tt, appended clock 2 session_id es db))
  unfolding insert_events
  insert_events_atomic [] db = inr (ground (arith, append-nil db.events))
  insert_events_atomic (e ∷ es) db = ground (arith, insert_rows-cases 2 (e ∷ es) db)

  insert_rows-some :
      (n : ℕ) (es : List Event) (tx : Db)
      → ((k : ℕ) → io k ≡ true)
      → session_exists session_id tx.sessions ≡ true
      → insert_rows io clock n session_id es tx ≢ none
  unfolding insert_rows
  insert_rows-some n [] tx h s = λ e. cc
  insert_rows-some n (e ∷ es) tx h s = ground (
    arith,
    h n,
    insert_rows-some (n + 1) es
        (record tx {
          events = tx.events ++ row_of (tx.event_seq + 1) session_id (clock n) e ∷ [];
          event_seq = tx.event_seq + 1;
        })
        h,
  )

  -- When no call of the engine fails, a batch for a session of the table is written.
  pub insert_events-ok :
      (es : List Event) (db : Db)
      → ((k : ℕ) → io k ≡ true)
      → session_exists session_id db.sessions ≡ true
      → insert_events io clock session_id es db ≡ (ok tt, appended clock 2 session_id es db)
  unfolding insert_events
  insert_events-ok [] db h s = ground (arith, append-nil db.events)
  insert_events-ok (e ∷ es) db h s = ground (
    arith,
    h 0,
    h 1,
    h (2 + length (e ∷ es)),
    insert_rows-cases 2 (e ∷ es) db,
    insert_rows-some 2 (e ∷ es) db h s,
  )

  -- The foreign key: a batch for a session that is not in the table is refused.
  pub insert_events-unknown :
      (e : Event) (es : List Event) (db : Db)
      → session_exists session_id db.sessions ≡ false
      → insert_events io clock session_id (e ∷ es) db ≡ (err engine, db)
  unfolding insert_events insert_rows
  insert_events-unknown e es db s = ground arith

-- The ids of the rows rise, and none is above the last one given out.
pub record IsSequenced (db : Db) : Type 0 where
  pub rising : Ordered (λ (a b : EventRow). ltb a.id b.id) db.events
  pub below : All (λ (r : EventRow). r.id ≤ db.event_seq) db.events

All-weaken :
    (n m : ℕ) (rs : List EventRow)
    → n ≤ m
    → All (λ (r : EventRow). r.id ≤ n) rs
    → All (λ (r : EventRow). r.id ≤ m) rs
All-weaken n m [] le h = tt
All-weaken n m (r ∷ rs) le h = (omega arith, All-weaken n m rs le h.1)

All-above :
    (x : EventRow) (n k : ℕ) (clock : ℕ → ℤ) (s : String) (es : List Event)
    → x.id ≤ n
    → All (λ (y : EventRow). ltb x.id y.id ≡ true) (rows_of clock k n s es)
All-above x n k clock s [] h = tt
All-above x n k clock s (e ∷ es) h =
    (ground arith, All-above x (n + 1) (k + 1) clock s es (omega arith))

rows_of-Ordered :
    (n k : ℕ) (clock : ℕ → ℤ) (s : String) (es : List Event)
    → Ordered (λ (a b : EventRow). ltb a.id b.id) (rows_of clock k n s es)
rows_of-Ordered n k clock s [] = tt
rows_of-Ordered n k clock s (e ∷ es) = (
  All-above (row_of (n + 1) s (clock k) e) (n + 1) (k + 1) clock s es (omega arith),
  rows_of-Ordered (n + 1) (k + 1) clock s es,
)

rows_of-below :
    (n k : ℕ) (clock : ℕ → ℤ) (s : String) (es : List Event)
    → All (λ (r : EventRow). r.id ≤ n + length es) (rows_of clock k n s es)
rows_of-below n k clock s [] = tt
rows_of-below n k clock s (e ∷ es) = (
  omega arith,
  All-weaken _ _ (rows_of clock (k + 1) (n + 1) s es) (omega arith)
      (rows_of-below (n + 1) (k + 1) clock s es),
)

append-Ordered :
    (n k : ℕ) (clock : ℕ → ℤ) (s : String) (es : List Event) (rs : List EventRow)
    → Ordered (λ (a b : EventRow). ltb a.id b.id) rs
    → All (λ (r : EventRow). r.id ≤ n) rs
    → Ordered (λ (a b : EventRow). ltb a.id b.id) (rs ++ rows_of clock k n s es)
append-Ordered n k clock s es [] h b = rows_of-Ordered n k clock s es
append-Ordered n k clock s es (r ∷ rs) h b = (
  All-append (λ (y : EventRow). ltb r.id y.id ≡ true) rs _ h.0 (All-above r n k clock s es b.0),
  append-Ordered n k clock s es rs h.1 b.1,
)

appended-IsSequenced :
    (clock : ℕ → ℤ) (k : ℕ) (s : String) (es : List Event) (db : Db)
    → IsSequenced db
    → IsSequenced (appended clock k s es db)
appended-IsSequenced clock k s es db h = record {
  rising = append-Ordered db.event_seq k clock s es db.events h.rising h.below;
  below =
      All-append (λ (r : EventRow). r.id ≤ db.event_seq + length es) db.events _
        (All-weaken _ _ db.events (omega arith) h.below) (rows_of-below db.event_seq k clock s es);
}

-- Every insert, failed or not, keeps the ids of `events` rising in the order of insertion.
pub insert_events-IsSequenced :
    (io : ℕ → Bool) (clock : ℕ → ℤ) (s : String) (es : List Event) (db : Db)
    → IsSequenced db
    → IsSequenced (insert_events io clock s es db).1
insert_events-IsSequenced io clock s es db h = elim (insert_events_atomic io clock s es db) [
  | inl e ↦ rw e h
  | inr e ↦ rw e (appended-IsSequenced clock 2 s es db h)
]
