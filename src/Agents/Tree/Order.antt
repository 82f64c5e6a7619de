-- ===== src/Agents/Tree/Order.antt =====
-- internal/store/agents.go: the tree walk puts out a parent before its children.
use tracelab.Agents.Tables.{SpawnRow}
use tracelab.Agents.Tree.{by_id, children_of, is_child_of, has_id, walk}
use tracelab.Agents.Tree.Members.{Has, here, there, by_id-id, IsKnown, children-IsKnown, parent_of}
use tracelab.Agents.Tree.Rounds.{walk_ind, by_id-Has}
use tracelab.Prelude.{
  ℕ, String, ◌≡◌, ◌≢◌, refl, sym, ◌∙◌, subst, true, ◌⊎◌, Option, none, some, List, [], ◌∷◌,
  str_eq_refl, All, All-append, Bool-cases, inl, inr, arith,
}

-- The PRIMARY KEY: two rows with one id are one row.
abbrev pub IsKeyed : List SpawnRow → Type 0
IsKeyed rows = (r s : SpawnRow) → Has r rows → Has s rows → r.id ≡ s.id → r ≡ s

-- The row has a parent, and it is among the ids.
pub record ParentIn (ids : List String) (r : SpawnRow) : Type 0 where
  pub parent : String
  pub is_parent : r.parent_id ≡ some parent
  pub named : parent ≢ ""
  pub earlier : has_id ids parent ≡ true

-- Each row is the root, or stands behind its parent.
abbrev pub ParentsFirst : String → List String → List SpawnRow → Type 0
ParentsFirst root earlier [] = Unit
ParentsFirst root earlier (r ∷ rs) =
    ((r.id ≡ root) ⊎ ParentIn earlier r) × ParentsFirst root (r.id ∷ earlier) rs

module _ (rows : List SpawnRow) (root : String) (keyed : IsKeyed rows) where
  abbrev IsReady : List String → String → Type 0
  IsReady visited id = (id ≡ root) ⊎ ((x : SpawnRow) → by_id rows id ≡ some x → ParentIn visited x)

  ParentIn-more :
      (visited : List String) (head : String) (x : SpawnRow)
      → ParentIn visited x
      → ParentIn (head ∷ visited) x
  ParentIn-more visited head x p = record {
    parent = p.parent;
    is_parent = p.is_parent;
    named = p.named;
    earlier = ground (arith, p.earlier);
  }

  IsReady-more :
      (visited : List String) (head : String) (queue : List String)
      → All (IsReady visited) queue
      → All (IsReady (head ∷ visited)) queue
  IsReady-more visited head [] a = tt
  IsReady-more visited head (q ∷ qs) a = (one a.0, IsReady-more visited head qs a.1)
    where
      one : IsReady visited q → IsReady (head ∷ visited) q
      one (inl e) = inl e
      one (inr f) = inr (λ x h. ParentIn-more visited head x (f x h))

  children-IsReady :
      (head : String) (visited : List String) (some_rows : List SpawnRow)
      → ((r : SpawnRow) → Has r some_rows → Has r rows)
      → All (IsReady (head ∷ visited)) (children_of some_rows head)
  children-IsReady head visited [] sub = tt
  children-IsReady head visited (r ∷ rs) sub =
      let rest = children-IsReady head visited rs (λ x m. sub x (there m)) in
      elim (Bool-cases (is_child_of head r)) [
        | inl e ↦
            let of = parent_of head r.parent_id e in
            let ready : IsReady (head ∷ visited) r.id = inr (λ x h.
              let same : r ≡ x =
                keyed r x (sub r here) (by_id-Has rows rows r.id x h)
                  (sym (by_id-id rows r.id x h)) in
              subst (ParentIn (head ∷ visited)) same (record {
                parent = head;
                is_parent = of.0;
                named = of.1;
                earlier = rw (str_eq_refl head) refl;
              })) in
            rw e (ready, rest)
        | inr e ↦ rw e rest
      ]

  pub walk-ParentsFirst :
      (fuel : ℕ) (queue visited : List String) (out : List SpawnRow)
      → walk rows fuel queue visited ≡ some out
      → All (IsReady visited) queue
      → All (IsKnown rows) queue
      → ParentsFirst root visited out
  walk-ParentsFirst =
      walk_ind rows
        (λ queue visited out.
          All (IsReady visited) queue → All (IsKnown rows) queue → ParentsFirst root visited out)
        (λ visited a k. tt) (λ head queue visited out e ih a k. ih a.1 k.1)
        (λ head queue visited out e ih a k.
          let found = k.0 in
          let bad : Path (Option SpawnRow) none (some found.0) = sym e ∙ found.1 in
          absurd (ground (arith, bad)))
        (λ row head queue visited rest e f ih a k.
          let same : row.id ≡ head = by_id-id rows head row f in
          (
            elim a.0 [ inl r ↦ inl (same ∙ r) | inr g ↦ inr (g row f) ],
            subst (λ u. ParentsFirst root (u ∷ visited) rest) (sym same)
                (ih
                  (All-append (IsReady (head ∷ visited)) queue (children_of rows head)
                    (IsReady-more visited head queue a.1)
                    (children-IsReady head visited rows (λ r m. m)))
                  (All-append (IsKnown rows) queue (children_of rows head) k.1
                    (children-IsKnown rows head rows (λ r m. m)))),
          ))
