-- ===== src/Agents/Tree/Descendants.antt =====
-- internal/store/agents.go: what `ListAgentSpawnTree` answers for a spawn that is stored.
use tracelab.Agents.Spawns.{agent_spawn_by_id}
use tracelab.Agents.Tables.{SpawnRow}
use tracelab.Agents.Tree.{spawns, has_id, walk, oldest_first, project_rows, list_agent_spawn_tree}
use tracelab.Agents.Tree.Complete.{walk-Complete, Descends-reached, IsClosed}
use tracelab.Agents.Tree.Members.{Has, here, there, Descends, itself, by_id-found, IsKnown}
use tracelab.Agents.Tree.Rounds.{ids, Distinct, walk-Descends, walk-Distinct, walk-Has}
use tracelab.Agents.Tree.Walk.{walk_total, pending-le}
use tracelab.Prelude.{
  suc, String, ◌≡◌, refl, subst, Bool, true, false, some, List, [], ◌∷◌, str_eq, eq_iff,
  str_eq_refl, length, filter, All, Bool-cases, inl, inr, arith,
}
use tracelab.Store.Query.{order_by, insert_by}
use tracelab.Store.Schema.{Result, ok}

module _ {A : Type 0} where
  Has-filter : (p : A → Bool) {x : A} {xs : List A} → p x ≡ true → Has x xs → Has x (filter p xs)
  Has-filter p h here = rw h here
  Has-filter p h (there {y = y} m) = elim (Bool-cases (p y)) [
    | inl e ↦ rw e (there (Has-filter p h m))
    | inr e ↦ rw e (Has-filter p h m)
  ]

  Has-insert_by_self : (before : A → A → Bool) (x : A) (xs : List A) → Has x (insert_by before x xs)
  unfolding insert_by
  Has-insert_by_self before x [] = here
  Has-insert_by_self before x (y ∷ ys) = elim (Bool-cases (before x y)) [
    | inl e ↦ rw e here
    | inr e ↦ rw e (there (Has-insert_by_self before x ys))
  ]

  Has-insert_by :
      (before : A → A → Bool) (y : A) {x : A} {xs : List A}
      → Has x xs
      → Has x (insert_by before y xs)
  unfolding insert_by
  Has-insert_by before y {x} (here {xs = xs}) = elim (Bool-cases (before y x)) [
    | inl e ↦ rw e (there here)
    | inr e ↦ rw e here
  ]
  Has-insert_by before y (there {y = z} m) = elim (Bool-cases (before y z)) [
    | inl e ↦ rw e (there (there m))
    | inr e ↦ rw e (there (Has-insert_by before y m))
  ]

  Has-order_by :
      (before : A → A → Bool) {x : A} {xs : List A} → Has x xs → Has x (order_by before xs)
  unfolding order_by
  Has-order_by before {x} (here {xs = xs}) = Has-insert_by_self before x (order_by before xs)
  Has-order_by before (there {y = y} m) = Has-insert_by before y (Has-order_by before m)

agent_spawn_by_id-Has :
    (table : List SpawnRow) (id : String) (root : SpawnRow)
    → agent_spawn_by_id table id ≡ ok root
    → Has root table × (root.id ≡ id)
unfolding agent_spawn_by_id
agent_spawn_by_id-Has [] id root h = ground (arith, h)
agent_spawn_by_id-Has (r ∷ rs) id root h = elim (Bool-cases (str_eq r.id id)) [
  | inl e ↦
      let k : Path (Result SpawnRow) (ok r) (ok root) = rw e at h in
      let same : r ≡ root = ground (arith, k) in
      (subst (λ u. Has u (r ∷ rs)) same here, subst (λ u. u.id ≡ id) same ((eq_iff r.id id).0 e))
  | inr e ↦
      let k : agent_spawn_by_id rs id ≡ ok root = rw e at h in
      let rest = agent_spawn_by_id-Has rs id root k in (there rest.0, rest.1)
]

-- The walk behind an answer.
pub record Walked (table : List SpawnRow) (root_id project : String) : Type 0 where
  pub out : List SpawnRow
  pub walked :
      walk
        (project_rows table project)
        (suc (suc (length (project_rows table project))))
        (root_id ∷ [])
        []
      ≡ some out
  pub known : IsKnown (project_rows table project) root_id
  pub answered : list_agent_spawn_tree table root_id ≡ spawns out

pub list_agent_spawn_tree-Walked :
    (table : List SpawnRow) (root_id : String) (root : SpawnRow)
    → str_eq root_id "" ≡ false
    → agent_spawn_by_id table root_id ≡ ok root
    → Walked table root_id root.project
unfolding list_agent_spawn_tree
list_agent_spawn_tree-Walked table root_id root named stored =
    let rows = project_rows table root.project in
    let found = agent_spawn_by_id-Has table root_id root stored in
    let inside : Has root rows = Has-order_by oldest_first (
      Has-filter (λ (r : SpawnRow). str_eq r.project root.project) (str_eq_refl root.project)
        found.0) in
    let fuel = suc (suc (length rows)) in
    let w = walk_total rows fuel (root_id ∷ []) [] (omega (arith, pending-le [] rows)) in
    record {
      out = w.0;
      walked = w.1;
      known = subst (IsKnown rows) found.1 (by_id-found inside);
      answered = rw (named, stored, w.1) refl;
    }

-- The rows of a tree: rows of the project under the root, every id under it, and none twice.
pub record IsTree (rows : List SpawnRow) (root : String) (out : List SpawnRow) : Type 0 where
  pub listed : All (λ (r : SpawnRow). Has r rows) out
  pub under : All (λ (r : SpawnRow). Descends rows root r.id) out
  pub complete : (id : String) → Descends rows root id → has_id (ids out) id ≡ true
  pub distinct : Distinct out

pub Walked-IsTree :
    (table : List SpawnRow) (root_id project : String) (w : Walked table root_id project)
    → IsTree (project_rows table project) root_id w.out
Walked-IsTree table root_id project w =
    let rows = project_rows table project in
    let fuel = suc (suc (length rows)) in
    let closed : IsClosed rows (root_id ∷ []) [] = λ id r h c. ground (arith, h) in
    let all = walk-Complete rows fuel (root_id ∷ []) [] w.out w.walked (w.known, tt) closed in
    record {
      listed = walk-Has rows fuel (root_id ∷ []) [] w.out w.walked;
      under = walk-Descends rows root_id fuel (root_id ∷ []) [] w.out w.walked (itself, tt);
      complete = λ id d. Descends-reached rows root_id w.out all d;
      distinct = (walk-Distinct rows fuel (root_id ∷ []) [] w.out w.walked).1;
    }

-- For a root that is stored, `ListAgentSpawnTree` answers with a list, so that its queue always runs empty,
-- also if parent links make a cycle. The list holds the rows of the root's project that lead to the
-- root by parent links within the project: all of them, no others, and none twice.
pub list_agent_spawn_tree-IsTree :
    (table : List SpawnRow) (root_id : String) (root : SpawnRow)
    → str_eq root_id "" ≡ false
    → agent_spawn_by_id table root_id ≡ ok root
    → (out : List SpawnRow) × (list_agent_spawn_tree table root_id ≡ spawns out)
      × IsTree (project_rows table root.project) root_id out
list_agent_spawn_tree-IsTree table root_id root named stored =
    let rows = project_rows table root.project in
    let w = list_agent_spawn_tree-Walked table root_id root named stored in
    (w.out, w.answered, Walked-IsTree table root_id root.project w)
