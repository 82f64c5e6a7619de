-- ===== src/Store/Crashes/Listing.antt =====
-- internal/store/sqlite.go: the listings of the `crashes` table.
use Prim.Native.String.{compare}
use text.Mathlib.Text.{is_lt}
use tracelab.Prelude.{
  ℕ, suc, ◌*◌, ◌≤◌, String, ◌≡◌, Bool, true, List, [], ◌∷◌, ℤ, pos, ltb, leb, ◌==◌, str_eq, int_eq,
  int_leb, if◌then◌else◌, length, filter,
}
use tracelab.Store.Crashes.{newest_first, crashes_by_session}
use tracelab.Store.Paging.{
  offset_or, page, pages, pages_lem, tally_if, order_by-tally, order_by-length, order_by-IsOrdered,
  take-Ordered,
}
use tracelab.Store.Sorting.{later_trans, later_total}
use tracelab.Store.Query.{limit_or-suc, limit_or, order_by, Ordered}
use tracelab.Store.Schema.{CrashRow, Db, no_rows, Result, ok, err}

-- `CrashSort`
pub data CrashSort : Type 0 where
  ts_desc ts_asc count_desc fingerprint_asc : CrashSort

-- The whitelisted ORDER BY clauses.
abbrev pub crash_order : CrashSort → CrashRow → CrashRow → Bool
crash_order ts_desc a b = newest_first a b
crash_order ts_asc a b = if int_eq a.ts b.ts then leb a.id b.id else int_leb a.ts b.ts
crash_order count_desc a b = if a.count == b.count then newest_first a b else ltb b.count a.count
crash_order fingerprint_asc a b =
    if str_eq a.fingerprint b.fingerprint
    then newest_first a b
    else is_lt (compare a.fingerprint b.fingerprint)

-- `WHERE session_id = ?`, left out for an empty filter.
abbrev pub in_filter : String → CrashRow → Bool
in_filter session c = if str_eq session "" then true else str_eq c.session_id session

-- `ListCrashes`, on the fields of `ListCrashesOpts`.
unfoldable pub list_crashes : Db → CrashSort → String → ℤ → ℤ → List CrashRow
list_crashes db sort session limit offset =
    page (limit_or 50 limit) (offset_or offset)
      (order_by (crash_order sort) (filter (in_filter session) db.crashes))

-- `CountCrashes`
unfoldable pub count_crashes : Db → String → ℕ
count_crashes db session = length (filter (in_filter session) db.crashes)

abbrev crash_in : ℕ → List CrashRow → Result CrashRow
crash_in id [] = err no_rows
crash_in id (c ∷ cs) = if c.id == id then ok c else crash_in id cs

-- `CrashByID`
unfoldable pub crash_by_id : Db → ℕ → Result CrashRow
crash_by_id db id = crash_in id db.crashes

-- The pages of `ListCrashes`, asked for until their number times the limit reaches `CountCrashes`,
-- hold every crash that passes the filter just as often as the table does, whatever the sort key.
pub list_crashes-pages :
    (db : Db) (sort : CrashSort) (session : String) (n k : ℕ)
    → count_crashes db session ≤ k * suc n
    → (p : CrashRow → Bool)
    → tally_if p (pages (λ i. list_crashes db sort session (pos (suc n)) (pos (i * suc n))) k)
      ≡ tally_if p (filter (in_filter session) db.crashes)
unfolding list_crashes count_crashes
list_crashes-pages db sort session n k h p =
    let rows = filter (in_filter session) db.crashes in
    let sorted = order_by (crash_order sort) rows in
    let fits : length sorted ≤ k * suc n = rw (order_by-length (crash_order sort) rows) h in
    rw (limit_or-suc 50 n, pages_lem (suc n) k sorted fits)
      (order_by-tally (crash_order sort) p rows)

-- `CrashesBySession` answers newest first: of two crashes of the answer, the one that stands first
-- has the later time, or the same time and an id that is not smaller.
pub crashes_by_session-Ordered :
    (db : Db) (session : String) (limit : ℤ)
    → Ordered newest_first (crashes_by_session db session limit)
unfolding crashes_by_session
crashes_by_session-Ordered db session limit = take-Ordered newest_first (limit_or 500 limit) _ (
    order_by-IsOrdered newest_first (λ a b c. later_trans a.ts b.ts c.ts a.id b.id c.id)
      (λ a b. later_total a.ts b.ts a.id b.id) _)
