-- ===== src/Tests/Http.antt =====
-- internal/http/handlers.go at concrete inputs.
use tracelab.Http.Events.{bad_request, event_view, list_events, since_param, limit_param}
use tracelab.Http.Events.Answers.{IsBounded, list_events-IsBounded}
use tracelab.Http.Events.Paging.{behind, drain, drain_lem}
use tracelab.Http.Ingest.{CrashDetector, IngestEvent, to_event, ingest, detect_and_upsert_crashes}
use tracelab.Http.Ingest.Outcome.{Outcome, ingest-Outcome, ingest-times}
use tracelab.Ws.Hub.{Event as WsEvent}
use tracelab.Store.Crashes.{upsert_crash}
use tracelab.Store.Events.{insert_events, insert_rows}
use tracelab.Prelude.{
  zero_nano, ℕ, ◌≡◌, refl, String, none, some, [], ◌∷◌, map, pos, codes, arith, atoi, true,
}
use tracelab.Store.Events.Atomic.{IsSequenced}
use tracelab.Store.Schema.{EventRow, CrashRow, Db, empty}

abbrev row : ℕ → String → EventRow
row id session = record {
  id = id;
  session_id = session;
  ts = pos 1;
  source = "adb";
  level = "info";
  msg = codes "m";
  meta = none;
}

-- Four events of two sessions.
abbrev db : Db
db = record empty { events = row 1 "s" ∷ row 2 "t" ∷ row 3 "s" ∷ row 5 "s" ∷ []; event_seq = 5 }

db-IsSequenced : IsSequenced db
db-IsSequenced = record {
  rising = ((refl, (refl, (refl, tt))), ((refl, (refl, tt)), ((refl, tt), (tt, tt))));
  below = (omega arith, (omega arith, (omega arith, (omega arith, tt))));
}

drain_lem_example : drain db "s" 2 3 0 ≡ map event_view (behind db "s" 0)
drain_lem_example = drain_lem db "s" 1 db-IsSequenced 3 0 (omega arith)

limit_capped : limit_param (codes "9000") ≡ some 5000
unfolding limit_param atoi
limit_capped = refl

limit_zero : limit_param (codes "0") ≡ none
unfolding limit_param atoi
limit_zero = refl

since_negative : since_param (codes "-1") ≡ none
unfolding since_param atoi
since_negative = refl

no_session : list_events true db "" (codes "1") [] ≡ bad_request "session required"
unfolding list_events
no_session = refl

list_events-IsBounded_example : IsBounded (list_events true db "s" (codes "1") (codes "99999"))
list_events-IsBounded_example = list_events-IsBounded true db "s" (codes "1") (codes "99999")

-- A detector that takes every message for a stack of one crash.
abbrev detector : CrashDetector
detector = record { detect = λ source level msg. some msg; fingerprint = λ stack. "f" }

abbrev posted : IngestEvent
posted = record { ts = pos 0; source = "app"; level = "error"; msg = codes "at a"; meta = "" }

abbrev sessions : Db
sessions = record empty {
  sessions = record { id = "s"; label = ""; started_at = pos 1; ended_at = none } ∷ [];
}

ingest-Outcome_example :
    Outcome
      (λ n. pos n)
      true
      "s"
      (map to_event (posted ∷ posted ∷ []))
      sessions
      (ingest detector true
        (λ n. true)
        (λ n. pos n)
        (λ k n. true)
        (λ k. pos k)
        "s"
        (posted ∷ posted ∷ [])
        sessions)
ingest-Outcome_example =
    ingest-Outcome detector true (λ n. true) (λ n. pos n) (λ k n. true) (λ k. pos k) "s" posted
      (posted ∷ []) sessions refl

-- `posted` has no time.
ingest-times_example :
    let r =
      ingest detector true
        (λ n. true)
        (λ n. pos n)
        (λ k n. true)
        (λ k. pos k)
        "s"
        (posted ∷ [])
        sessions in
    (map (λ (w : WsEvent). w.ts) r.published ≡ zero_nano ∷ [])
    × (map (λ (row : EventRow). row.ts) r.db.events ≡ pos 2 ∷ [])
unfolding ingest insert_events insert_rows
ingest-times_example =
    ingest-times detector (λ n. true) (λ n. pos n) (λ k n. true) (λ k. pos k) "s" posted [] sessions
      refl (λ h. cc h)

-- Both events are counted on one row.
ingest_counts :
    (map
      (λ (c : CrashRow). c.count)
      (ingest detector true
        (λ n. true)
        (λ n. pos n)
        (λ k n. true)
        (λ k. pos k)
        "s"
        (posted ∷ posted ∷ [])
        sessions).db.crashes)
    ≡ 2 ∷ []
unfolding ingest insert_events insert_rows detect_and_upsert_crashes upsert_crash
ingest_counts = refl
