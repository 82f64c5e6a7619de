-- ===== src/Store/Events/Recent.antt =====
-- internal/store/sqlite.go: `RecentEvents`.
use tracelab.Prelude.{
  ℕ, ◌+◌, String, ◌≡◌, ◌≢◌, Bool, true, List, [], ℤ, str_eq, length, take, filter, All,
}
use tracelab.Store.Paging.{tally_if}
use tracelab.Store.Query.{limit_or, order_by, Ordered}
use tracelab.Store.Schema.{EventRow, Db}
use tracelab.Store.Sorting.{later}

-- `ORDER BY ts DESC, id DESC`, and its reverse.
abbrev pub newer : EventRow → EventRow → Bool
newer a b = later a.ts b.ts a.id b.id

abbrev pub older : EventRow → EventRow → Bool
older a b = newer b a

abbrev pub of_session : String → EventRow → Bool
of_session session_id r = str_eq r.session_id session_id

-- `RecentEvents`, of the rows: the inner SELECT and the outer one.
unfoldable pub recent_events : Db → String → ℤ → List EventRow
recent_events db session_id limit =
    order_by older
      (take (limit_or 100 limit) (order_by newer (filter (of_session session_id) db.events)))

-- The answer is in order, oldest first; with `rest` it makes up all the rows; nothing in `rest` is newer
-- than a row of the answer; and the answer is as long as the limit if anything is left out.
pub record IsNewest (limit : ℕ) (rows answer : List EventRow) : Type 0 where
  pub rest : List EventRow
  pub chronological : Ordered older answer
  pub whole : (p : EventRow → Bool) → tally_if p answer + tally_if p rest ≡ tally_if p rows
  pub behind : All (λ a. All (λ b. newer a b ≡ true) rest) answer
  pub full : rest ≢ [] → length answer ≡ limit
