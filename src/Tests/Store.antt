-- ===== src/Tests/Store.antt =====
-- internal/store/sqlite.go at concrete inputs.
use tracelab.Prelude.{
  map, ℕ, ◌≡◌, ◌≢◌, refl, ◌⊎◌, ◌+◌, Bool, true, false, none, some, [], ◌∷◌, ◌*◌, ℤ, pos, codes,
  arith, unix, zero_time, filter, str_eq, ◌==◌, if◌then◌else◌,
}
use tracelab.Store.Schema.{Event, SessionRow, CrashRow, Db, empty, engine, ok, err}
use tracelab.Store.Query.{Ordered}
use tracelab.Store.Paging.{pages, tally_if}
use tracelab.Store.Sessions.{
  create_session, session_by_id, end_session, end_of, session_by_id-create_session,
  session_by_id-end_session, SameLogs,
}
use tracelab.Store.Events.{insert_events}
use tracelab.Store.Events.Atomic.{
  appended, IsSequenced, insert_events_atomic, insert_events-ok, insert_events-unknown,
  insert_events-IsSequenced,
}
use tracelab.Store.Crashes.{newest_first, upsert_crash, crashes_by_session}
use tracelab.Store.Crashes.Counting.{IsRegistered, tally, same_crash, upsert_crash-tally}
use tracelab.Store.Crashes.Listing.{
  count_desc, in_filter, list_crashes, count_crashes, list_crashes-pages,
  crashes_by_session-Ordered,
}
use tracelab.Store.Crashes.Registered.{upsert_crash-IsRegistered}

abbrev session : SessionRow
session = record { id = "s"; label = "app"; started_at = pos 1; ended_at = none }

abbrev db : Db
db = record empty { sessions = session ∷ [] }

abbrev event : Event
event = record {
  id = 0;
  session_id = "";
  ts = unix (pos 5);
  source = "adb";
  level = "info";
  msg = codes "x";
  meta = "";
}

-- The third call, the first INSERT, fails.
abbrev failing : ℕ → Bool
failing n = if n == 2 then false else true

abbrev clock : ℕ → ℤ
clock n = pos n

abbrev crash : Db
crash = (upsert_crash (λ n. true) (pos 3) "s" zero_time "f" (codes "at a") db).1

IsRegistered-db : IsRegistered db
IsRegistered-db = record { rising = tt; below = tt; unique = λ s f. omega arith }

IsRegistered-crash : IsRegistered crash
IsRegistered-crash =
    (upsert_crash-IsRegistered (λ n. true) (pos 3) "s" zero_time "f" (codes "at a") db
      IsRegistered-db).0

insert_events_atomic_example :
    (insert_events failing clock "s" (event ∷ event ∷ []) db ≡ (err engine, db))
    ⊎ (insert_events failing clock "s" (event ∷ event ∷ []) db
        ≡ (ok tt, appended clock 2 "s" (event ∷ event ∷ []) db))
insert_events_atomic_example = insert_events_atomic failing clock "s" (event ∷ event ∷ []) db

insert_events-ok_example :
    insert_events (λ n. true) clock "s" (event ∷ []) db
    ≡ (ok tt, appended clock 2 "s" (event ∷ []) db)
insert_events-ok_example = insert_events-ok (λ n. true) clock "s" (event ∷ []) db (λ k. refl) refl

unknown_session_refused : insert_events (λ n. true) clock "t" (event ∷ []) db ≡ (err engine, db)
unknown_session_refused = insert_events-unknown (λ n. true) clock "t" event [] db refl

insert_events-IsSequenced_example :
    IsSequenced (insert_events (λ n. true) clock "s" (event ∷ event ∷ []) db).1
insert_events-IsSequenced_example =
    insert_events-IsSequenced (λ n. true) clock "s" (event ∷ event ∷ []) db
      (record { rising = tt; below = tt })

upsert_crash-tally_example :
    tally "s" "f" (upsert_crash (λ n. true) (pos 4) "s" (unix (pos 9)) "f" [] crash).1.crashes
    ≡ tally "s" "f" crash.crashes + same_crash "s" "f" "s" "f"
unfolding upsert_crash
upsert_crash-tally_example =
    upsert_crash-tally (λ n. true) (pos 4) "s" (unix (pos 9)) "f" [] crash "s" "f"
      IsRegistered-crash refl

upsert_crash-IsRegistered_example :
    IsRegistered (upsert_crash failing (pos 4) "s" (unix (pos 9)) "f" [] crash).1
    × ((upsert_crash failing (pos 4) "s" (unix (pos 9)) "f" [] crash).0 ≢ ok tt
        → (upsert_crash failing (pos 4) "s" (unix (pos 9)) "f" [] crash).1 ≡ crash)
upsert_crash-IsRegistered_example =
    upsert_crash-IsRegistered failing (pos 4) "s" (unix (pos 9)) "f" [] crash IsRegistered-crash

crashes_paged :
    tally_if
      (λ (c : CrashRow). true)
      (pages (λ i. list_crashes crash count_desc "" (pos 1) (pos (i * 1))) 2)
    ≡ tally_if (λ (c : CrashRow). true) (filter (in_filter "") crash.crashes)
unfolding count_crashes upsert_crash
crashes_paged = list_crashes-pages crash count_desc "" 0 2 (omega arith) (λ c. true)

crashes_in_order : Ordered newest_first (crashes_by_session crash "s" (pos 10))
crashes_in_order = crashes_by_session-Ordered crash "s" (pos 10)

created_session :
    session_by_id (create_session true (some "t") (pos 8) "new" db).1 "t"
    ≡ ok (record { id = "t"; label = "new"; started_at = pos 8; ended_at = none })
unfolding create_session
created_session = session_by_id-create_session true "t" (pos 8) "new" db refl

session_by_id-end_session_example :
    ((end_session true (pos 9) "s" db).0 ≡ ok tt)
    × (session_by_id (end_session true (pos 9) "s" db).1 "s"
        ≡ (if str_eq "s" "s" then end_of (pos 9) (session_by_id db "s") else session_by_id db "s"))
    × (map (λ (s : SessionRow). s.id) (end_session true (pos 9) "s" db).1.sessions ≡ "s" ∷ [])
    × SameLogs (end_session true (pos 9) "s" db).1 db
session_by_id-end_session_example = session_by_id-end_session (pos 9) "s" "s" db refl
