-- ===== src/Agents/Tree.antt =====
-- internal/store/agents.go: `ListAgentSpawnTree`.
pub mod Walk
pub mod Members
pub mod Rounds
pub mod Complete
pub mod Descendants
pub mod Order
pub mod Keyed
use Prim.Native.String.{compare}
use mathlib.Core.Option
use text.Mathlib.Text.{is_le}
use tracelab.Agents.Spawns.{agent_spawn_by_id}
use tracelab.Agents.Tables.{SpawnRow}
use tracelab.Prelude.{
  ℕ, zero, suc, ◌+◌, String, Bool, true, false, not, ◌&&◌, Option, none, some, List, [], ◌∷◌, ◌++◌,
  map, int_eq, int_leb, str_eq, if◌then◌else◌, any, length, filter,
}
use tracelab.Store.Query.{order_by}
use tracelab.Store.Schema.{Result, ok, err, invalid, engine}

-- `ORDER BY started_at ASC, id ASC`
abbrev pub oldest_first : SpawnRow → SpawnRow → Bool
oldest_first a b =
    if int_eq a.started_at b.started_at
    then is_le (compare a.id b.id)
    else int_leb a.started_at b.started_at

-- `byID[id]`: the last row that was stored under the id.
abbrev pub later : Option SpawnRow → Option SpawnRow → Option SpawnRow
later (some r) earlier = some r
later none earlier = earlier

unfoldable pub by_id : List SpawnRow → String → Option SpawnRow
by_id [] id = none
by_id (r ∷ rs) id = later (by_id rs id) (if str_eq r.id id then some r else none)

-- `childrenByParent[id]`: the ids of the rows whose parent it is, in the order of the rows.
abbrev pub has_parent : String → Option String → Bool
has_parent id none = false
has_parent id (some p) = not (str_eq p "") && str_eq p id

abbrev pub is_child_of : String → SpawnRow → Bool
is_child_of id r = has_parent id r.parent_id

abbrev pub children_of : List SpawnRow → String → List String
children_of rows id = map (λ (r : SpawnRow). r.id) (filter (is_child_of id) rows)

-- `visited[id]`
abbrev pub has_id : List String → String → Bool
has_id ids id = any (λ (k : String). str_eq k id) ids

-- The loop over the queue, on fuel; `none` says that the fuel ran out.
module _ (rows : List SpawnRow) where
  -- A row that is known is put out and its children are queued. An id that is not is passed by.
  abbrev pub expand :
      Option SpawnRow → (Option SpawnRow → Option (List SpawnRow)) → Option (List SpawnRow)
  expand none rest = rest none
  expand (some row) rest = Option.map (λ out. row ∷ out) (rest (some row))

  abbrev pub queued : String → Option SpawnRow → List String
  queued head none = []
  queued head (some row) = children_of rows head

  unfoldable pub walk : ℕ → List String → List String → Option (List SpawnRow)
  walk zero queue visited = none
  walk (suc fuel) [] visited = some []
  walk (suc fuel) (head ∷ queue) visited =
      let seen = walk fuel queue visited in
      let fresh =
        expand (by_id rows head) (λ row. walk fuel (queue ++ queued head row) (head ∷ visited)) in
      if has_id visited head then seen else fresh

-- The outcomes: an argument that is refused, no such root, or the rows.
pub data Tree : Type 0 where
  refused : Tree
  unknown : Tree
  exhausted : Tree
  spawns : List SpawnRow → Tree

abbrev pub tree_of : Option (List SpawnRow) → Tree
tree_of none = exhausted
tree_of (some rows) = spawns rows

-- The rows of a project, as the query gives them.
abbrev pub project_rows : List SpawnRow → String → List SpawnRow
project_rows table project =
    order_by oldest_first (filter (λ (r : SpawnRow). str_eq r.project project) table)

abbrev pub tree_from : List SpawnRow → String → Result SpawnRow → Tree
tree_from table root_id (err e) = unknown
tree_from table root_id (ok root) =
    let rows = project_rows table root.project in
    tree_of (walk rows (suc (suc (length rows))) (root_id ∷ []) [])

-- `ListAgentSpawnTree`
unfoldable pub list_agent_spawn_tree : List SpawnRow → String → Tree
list_agent_spawn_tree table root_id =
    if str_eq root_id "" then refused else tree_from table root_id (agent_spawn_by_id table root_id)
