-- ===== src/Agents/Spawns.antt =====
-- internal/store/agents.go: the listing of `agent_spawns`.
use Prim.Native.String.{compare}
use text.Mathlib.Text.{is_le}
use tracelab.Agents.Tables.{SpawnRow}
use tracelab.Prelude.{
  ℕ, suc, ◌*◌, ◌≤◌, String, ◌≡◌, Bool, true, false, ◌&&◌, Option, none, some, List, [], ◌∷◌, ℤ, pos,
  int_eq, int_leb, str_eq, if◌then◌else◌, length, filter,
}
use tracelab.Store.Paging.{
  offset_or, page, pages, pages_lem, tally_if, order_by-tally, order_by-length,
}
use tracelab.Store.Query.{limit_or-suc, limit_or, order_by}
use tracelab.Store.Schema.{no_rows, Result, ok, err}

abbrev is_some_of : String → Option String → Bool
is_some_of s none = false
is_some_of s (some t) = str_eq t s

-- The WHERE clauses: an empty filter is left out; a NULL `session_ref` passes no filter.
abbrev pub in_filter : String → String → SpawnRow → Bool
in_filter project session_ref r =
    (if str_eq project "" then true else str_eq r.project project)
    && (if str_eq session_ref "" then true else is_some_of session_ref r.session_ref)

-- `ORDER BY started_at DESC, id DESC`
abbrev pub newest_first : SpawnRow → SpawnRow → Bool
newest_first a b =
    if int_eq a.started_at b.started_at
    then is_le (compare b.id a.id)
    else int_leb b.started_at a.started_at

-- `ListAgentSpawns`, on the fields of `ListAgentSpawnsOpts`.
unfoldable pub list_agent_spawns : List SpawnRow → String → String → ℤ → ℤ → List SpawnRow
list_agent_spawns spawns project session_ref limit offset =
    page (limit_or 50 limit) (offset_or offset)
      (order_by newest_first (filter (in_filter project session_ref) spawns))

-- `CountAgentSpawns`
unfoldable pub count_agent_spawns : List SpawnRow → String → String → ℕ
count_agent_spawns spawns project session_ref =
    length (filter (in_filter project session_ref) spawns)

-- `AgentSpawnByID`
unfoldable pub agent_spawn_by_id : List SpawnRow → String → Result SpawnRow
agent_spawn_by_id [] id = err no_rows
agent_spawn_by_id (s ∷ ss) id = if str_eq s.id id then ok s else agent_spawn_by_id ss id

-- The pages of `ListAgentSpawns`, asked for until their number times the limit reaches
-- `CountAgentSpawns`, hold every spawn that passes the filters just as often as the table does.
pub list_agent_spawns-pages :
    (spawns : List SpawnRow) (project session_ref : String) (n k : ℕ)
    → count_agent_spawns spawns project session_ref ≤ k * suc n
    → (p : SpawnRow → Bool)
    → tally_if p (
        pages (λ i. list_agent_spawns spawns project session_ref (pos (suc n)) (pos (i * suc n))) k)
      ≡ tally_if p (filter (in_filter project session_ref) spawns)
unfolding list_agent_spawns count_agent_spawns
list_agent_spawns-pages spawns project session_ref n k h p =
    let rows = filter (in_filter project session_ref) spawns in
    let sorted = order_by newest_first rows in
    let fits : length sorted ≤ k * suc n = rw (order_by-length newest_first rows) h in
    rw (limit_or-suc 50 n, pages_lem (suc n) k sorted fits) (order_by-tally newest_first p rows)
