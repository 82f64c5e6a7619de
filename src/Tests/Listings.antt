-- ===== src/Tests/Listings.antt =====
-- internal/store/sqlite.go, internal/http/handlers.go: the listings of sessions, events and crashes at concrete inputs.
use tracelab.Prelude.{
  ℕ, Bool, ◌-◌, take, ◌≡◌, refl, true, none, some, [], ◌∷◌, ℤ, pos, codes, arith, map, any, str_eq,
}
use tracelab.Store.Crashes.Owners.{
  is_id, once, session_ids_with_crashes, session_ids_with_crashes_lem,
}
use tracelab.Store.Events.Recent.{recent_events}
use tracelab.Store.Paging.{tally_if}
use tracelab.Store.Query.{order_by}
use tracelab.Store.Schema.{SessionRow, EventRow, CrashRow, Db, empty}
use tracelab.Store.Sessions.{create_session}
use tracelab.Store.Sessions.Ids.{new_session_id, hex_digits, sorts_before, new_session_id-before}
use tracelab.Http.Events.{success}
use tracelab.Http.Sessions.{
  session_start, session_view, sessions_limit, list_sessions_reply,
  list_sessions_reply-session_start,
}
use tracelab.Store.Sessions.Like.{like}
use tracelab.Store.Sessions.Listing.{
  text_leb, SessionWithCounts, started_last, list_sessions, count_sessions,
}

abbrev session : SessionRow
session = record { id = "Ab1"; label = "app"; started_at = pos 1; ended_at = none }

abbrev later_session : SessionRow
later_session = record { id = "xab"; label = ""; started_at = pos 4; ended_at = some (pos 5) }

abbrev event : ℕ → ℤ → EventRow
event id ts = record {
  id = id;
  session_id = "Ab1";
  ts = ts;
  source = "adb";
  level = "info";
  msg = codes "x";
  meta = none;
}

abbrev crash : ℕ → CrashRow
crash id = record {
  id = id;
  session_id = "xab";
  ts = pos 6;
  fingerprint = "f";
  stacktrace = [];
  count = 1;
}

abbrev db : Db
db = record empty {
  sessions = session ∷ later_session ∷ [];
  events = event 1 (pos 9) ∷ event 2 (pos 7) ∷ event 3 (pos 9) ∷ [];
  event_seq = 3;
  crashes = crash 1 ∷ crash 2 ∷ [];
  crash_seq = 2;
}

two_recent : recent_events db "Ab1" (pos 2) ≡ event 1 (pos 9) ∷ event 3 (pos 9) ∷ []
unfolding recent_events order_by
two_recent = refl

newest_session : list_sessions db (pos 1) ≡ later_session ∷ []
unfolding list_sessions order_by
newest_session = refl

-- The wildcards of a filter are wildcards, and the case of letters does not matter.
underscore_matches : count_sessions db "a_1" ≡ 1
unfolding count_sessions like
underscore_matches = refl

case_ignored : count_sessions db "AB" ≡ 2
unfolding count_sessions like
case_ignored = refl

abbrev by_id : SessionWithCounts → SessionWithCounts → Bool
by_id a b = text_leb a.session.id b.session.id

session_ids_with_crashes_lem_example :
    tally_if (is_id "xab") (session_ids_with_crashes db)
    ≡ once (any (λ (c : CrashRow). str_eq c.session_id "xab") db.crashes)
session_ids_with_crashes_lem_example = session_ids_with_crashes_lem db "xab"

-- The instants 15 and 16, whose digits differ in length without the zeros.
new_session_id-before_example :
    sorts_before
      (new_session_id (some (255 ∷ 1 ∷ [])) (pos 15))
      (new_session_id (some (0 ∷ 7 ∷ [])) (pos 16))
    ≡ true
new_session_id-before_example =
    new_session_id-before 15 16 (255 ∷ 1 ∷ []) (0 ∷ 7 ∷ []) (omega arith) (omega arith)

padded_id : new_session_id (some (10 ∷ [])) (pos 255) ≡ some (codes "00000000000000ff0a")
unfolding new_session_id hex_digits
padded_id = refl

list_sessions_reply-session_start_example :
    list_sessions_reply true
      (session_start true (some "n") (pos 8) (pos 9) "new" db).1
      (codes "2000")
    ≡ success (
        record { id = "n"; label = "new"; started_at = pos 8; ended_at = none }
        ∷ map session_view
            (take (sessions_limit (codes "2000") - 1) (order_by started_last db.sessions)))
unfolding session_start create_session
list_sessions_reply-session_start_example =
    list_sessions_reply-session_start true "n" "new" (pos 8) (pos 9) db (codes "2000") refl
      (refl, (refl, tt))
