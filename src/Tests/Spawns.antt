-- ===== src/Tests/Spawns.antt =====
-- internal/store/agents.go: the tree of spawns and the reads by spawn at concrete inputs.
use tracelab.Agents.Reads.{
  is_in, bundle_at, AgentEdgeBundle, no_edges, agent_edges_for_spawn, agent_edges_for_spawn_ids,
}
use tracelab.Agents.Reads.Chunks.{agent_edges_for_spawn_ids-each}
use tracelab.Agents.Spawns.{agent_spawn_by_id}
use tracelab.Agents.Tables.{SpawnRow, AgentMailboxEdge}
use tracelab.Agents.Tree.{spawns, project_rows, list_agent_spawn_tree, walk, by_id, unknown}
use tracelab.Agents.Tree.Descendants.{IsTree, list_agent_spawn_tree-IsTree}
use tracelab.Prelude.{
  String, ◌≡◌, refl, true, false, Option, none, some, List, [], ◌∷◌, pos, unix, str_eq, Assoc,
}
use tracelab.Store.Query.{order_by, insert_by}
use tracelab.Store.Schema.{ok}

abbrev spawn : String → Option String → SpawnRow
spawn id parent = record {
  id = id;
  parent_id = parent;
  skill = "qs";
  started_at = pos 5;
  ended_at = none;
  project = "p";
  session_ref = none;
}

-- Two spawns that are each other's parents, a child, and a stranger.
abbrev cycle : List SpawnRow
cycle = spawn "a" (some "b") ∷ spawn "b" (some "a") ∷ spawn "c" (some "b") ∷ spawn "x" none ∷ []

list_agent_spawn_tree-IsTree_example :
    (out : List SpawnRow) × (list_agent_spawn_tree cycle "a" ≡ spawns out)
    × IsTree (project_rows cycle "p") "a" out
unfolding agent_spawn_by_id
list_agent_spawn_tree-IsTree_example =
    list_agent_spawn_tree-IsTree cycle "a" (spawn "a" (some "b")) refl refl

cycle_tree :
    list_agent_spawn_tree cycle "a"
    ≡ spawns (spawn "a" (some "b") ∷ spawn "b" (some "a") ∷ spawn "c" (some "b") ∷ [])
unfolding list_agent_spawn_tree agent_spawn_by_id walk by_id order_by insert_by
cycle_tree = refl

no_root : list_agent_spawn_tree cycle "z" ≡ unknown
unfolding list_agent_spawn_tree agent_spawn_by_id
no_root = refl

abbrev edge : String → String → AgentMailboxEdge
edge from to = record {
  from_spawn_id = from;
  to_spawn_id = to;
  edge_type = "spawn";
  ts = unix (pos 7);
}

abbrev edges : List AgentMailboxEdge
edges = edge "a" "b" ∷ edge "b" "a" ∷ edge "a" "a" ∷ []

agent_edges_for_spawn_ids-each_example :
    (out : Assoc AgentEdgeBundle) × (agent_edges_for_spawn_ids edges ("a" ∷ "c" ∷ []) ≡ some out)
    × ((id : String)
        → is_in ("a" ∷ "c" ∷ []) id ≡ true
        → str_eq id "" ≡ false
        → agent_edges_for_spawn edges id ≡ ok (bundle_at id out))
    × ((id : String) → is_in ("a" ∷ "c" ∷ []) id ≡ false → bundle_at id out ≡ no_edges)
agent_edges_for_spawn_ids-each_example =
    agent_edges_for_spawn_ids-each edges ("a" ∷ "c" ∷ []) (refl, (refl, tt))
