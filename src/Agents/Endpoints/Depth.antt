-- ===== src/Agents/Endpoints/Depth.antt =====
-- internal/agents/read.go: the depths that GET /agents/tree gives.
use tracelab.Agents.Tables.{SpawnRow}
use tracelab.Agents.Tree.{has_id}
use tracelab.Agents.Tree.Members.{Has}
use tracelab.Prelude.{ℕ, suc, String, ◌≡◌, ◌≢◌, true, some, List, Assoc, lookup}

-- A spawn `d` parent links below the root.
pub data DescendsBy (rows : List SpawnRow) (root : String) : String → ℕ → Type 0 where
  itself : DescendsBy rows root root 0
  child :
      {p : String} {d : ℕ} (r : SpawnRow)
      → DescendsBy rows root p d
      → Has r rows
      → r.parent_id ≡ some p
      → p ≢ ""
      → DescendsBy rows root r.id (suc d)

module _ (rows : List SpawnRow) (root : String) where
  -- The map of depths has a right depth for every id that was visited.
  record IsMeasured (earlier : List String) (depths : Assoc ℕ) : Type 0 where
    right : (id : String) (d : ℕ) → lookup id depths ≡ some d → DescendsBy rows root id d
    covers : (id : String) → has_id earlier id ≡ true → (d : ℕ) × (lookup id depths ≡ some d)
