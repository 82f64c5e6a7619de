-- ===== src/Store/Sessions/Listing.antt =====
-- internal/store/sqlite.go: the listings of the `sessions` table.
use Prim.Native.String.{compare}
use text.Mathlib.Text.{is_lt}
use tracelab.Prelude.{
  ℕ, String, codes, Bool, true, not, List, ℤ, ltb, ◌==◌, str_eq, int_eq, int_leb, if◌then◌else◌,
  length, take, filter, map,
}
use tracelab.Store.Paging.{offset_or, page, tally_if}
use tracelab.Store.Query.{limit_or, order_by}
use tracelab.Store.Schema.{SessionRow, EventRow, CrashRow, Db}
use tracelab.Store.Sessions.Like.{like, around}

-- `SessionSort`
pub data SessionSort : Type 0 where
  started_at_desc started_at_asc id_asc event_count_desc : SessionSort

-- `SessionWithCounts`
pub record SessionWithCounts : Type 0 where
  pub session : SessionRow
  pub event_count : ℕ
  pub crash_count : ℕ

-- `a <= b` on TEXT.
abbrev pub text_leb : String → String → Bool
text_leb a b = not (is_lt (compare b a))

abbrev pub with_counts : Db → SessionRow → SessionWithCounts
with_counts db s = record {
  session = s;
  event_count = tally_if (λ (e : EventRow). str_eq e.session_id s.id) db.events;
  crash_count = tally_if (λ (c : CrashRow). str_eq c.session_id s.id) db.crashes;
}

-- The whitelisted ORDER BY clauses. The last one leaves sessions with as many events and the same start
-- in no order: `tie` says which of two the engine puts first.
module _ (tie : SessionWithCounts → SessionWithCounts → Bool) where
  abbrev pub session_order : SessionSort → SessionWithCounts → SessionWithCounts → Bool
  session_order started_at_desc a b =
      if int_eq a.session.started_at b.session.started_at
      then text_leb b.session.id a.session.id
      else int_leb b.session.started_at a.session.started_at
  session_order started_at_asc a b =
      if int_eq a.session.started_at b.session.started_at
      then text_leb a.session.id b.session.id
      else int_leb a.session.started_at b.session.started_at
  session_order id_asc a b = text_leb a.session.id b.session.id
  session_order event_count_desc a b =
      if a.event_count == b.event_count
      then (if int_eq a.session.started_at b.session.started_at
          then tie a b
          else int_leb b.session.started_at a.session.started_at)
      else ltb b.event_count a.event_count

-- `WHERE id LIKE ?`, left out for an empty filter.
abbrev pub passes : String → SessionRow → Bool
passes part s = if str_eq part "" then true else like (around part) (codes s.id)

-- `ORDER BY started_at DESC`
abbrev pub started_last : SessionRow → SessionRow → Bool
started_last a b = int_leb b.started_at a.started_at

-- `ListSessions`
unfoldable pub list_sessions : Db → ℤ → List SessionRow
list_sessions db limit = take (limit_or 50 limit) (order_by started_last db.sessions)

-- `ListSessionsWithCounts`, on the fields of `ListSessionsOpts`.
unfoldable pub list_sessions_with_counts :
    (SessionWithCounts → SessionWithCounts → Bool)
    → Db
    → SessionSort
    → String
    → ℤ
    → ℤ
    → List SessionWithCounts
list_sessions_with_counts tie db sort part limit offset =
    page (limit_or 50 limit) (offset_or offset)
      (order_by (session_order tie sort) (map (with_counts db) (filter (passes part) db.sessions)))

-- `CountSessions`
unfoldable pub count_sessions : Db → String → ℕ
count_sessions db part = length (filter (passes part) db.sessions)
