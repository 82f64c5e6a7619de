-- ===== src/Agents/Tree/Walk.antt =====
-- internal/store/agents.go: the walk over the tree ends, and puts out descendants only, each once.

use tracelab.Agents.Tables.{SpawnRow}
use tracelab.Agents.Tree.{by_id, has_parent, is_child_of, children_of, has_id, walk}
use tracelab.Prelude.{
  ℕ, zero, suc, ◌+◌, ◌≤◌, ◌<◌, String, ◌≡◌, refl, sym, ◌∙◌, subst, true, false, not, ◌&&◌, Option,
  none, some, List, [], ◌∷◌, ◌++◌, str_eq, eq_iff, if◌then◌else◌, length, length-append, Bool-cases,
  Option-cases, inl, inr, arith,
}

-- How many rows wait for a parent that has not been visited.
abbrev pub awaits : List String → Option String → ℕ
awaits visited none = 0
awaits visited (some p) = if not (str_eq p "") && not (has_id visited p) then 1 else 0

abbrev pub pending : List String → List SpawnRow → ℕ
pending visited [] = 0
pending visited (r ∷ rs) = awaits visited r.parent_id + pending visited rs

module _ (head : String) (visited : List String) (new : has_id visited head ≡ false) where
  awaits_visit :
      (o : Option String)
      → awaits visited o ≡ (if has_parent head o then 1 else 0) + awaits (head ∷ visited) o
  awaits_visit none = omega arith
  awaits_visit (some p) = elim (Bool-cases (str_eq p "")) [
    | inl e ↦ rw e refl
    | inr e ↦ elim (Bool-cases (str_eq p head)) [
      | inl f ↦
          let same : p ≡ head = (eq_iff p head).0 f in
          let unseen : has_id visited p ≡ false =
            subst (λ u. has_id visited u ≡ false) (sym same) new in
          let back : str_eq head p ≡ true = (eq_iff head p).1 (sym same) in
          rw (e, f, unseen, back) refl
      | inr f ↦ elim (Bool-cases (str_eq head p)) [
        | inl g ↦
            let bad : str_eq p head ≡ true = (eq_iff p head).1 (sym ((eq_iff head p).0 g)) in
            ground (arith, bad, f)
        | inr g ↦ rw (e, f, g) (omega arith)
      ]
    ]
  ]

  -- A visit turns the rows that wait for it into children on the queue.
  pending_visit :
      (rows : List SpawnRow)
      → pending visited rows ≡ length (children_of rows head) + pending (head ∷ visited) rows
  pending_visit [] = omega arith
  pending_visit (r ∷ rs) = elim (Bool-cases (is_child_of head r)) [
    | inl e ↦
        let one : awaits visited r.parent_id ≡ 1 + awaits (head ∷ visited) r.parent_id =
          awaits_visit r.parent_id ∙ rw e refl in
        rw e (omega (arith, one, pending_visit rs))
    | inr e ↦
        let none_here : awaits visited r.parent_id ≡ 0 + awaits (head ∷ visited) r.parent_id =
          awaits_visit r.parent_id ∙ rw e refl in
        rw e (omega (arith, none_here, pending_visit rs))
  ]

pub pending-le : (visited : List String) (rows : List SpawnRow) → pending visited rows ≤ length rows
pending-le visited [] = omega arith
pending-le visited (r ∷ rs) = omega (arith, awaits-le r.parent_id, pending-le visited rs)
  where
    awaits-le : (o : Option String) → awaits visited o ≤ 1
    awaits-le none = omega arith
    awaits-le (some p) = ground arith

module _ (rows : List SpawnRow) where
  -- Each round takes one id off the queue or settles one that waits, so that a round for each is enough.
  pub walk_total :
      (fuel : ℕ) (queue visited : List String)
      → length queue + pending visited rows < fuel
      → (out : List SpawnRow) × (walk rows fuel queue visited ≡ some out)
  unfolding walk
  walk_total zero queue visited h = elim h [ ]
  walk_total (suc fuel) [] visited h = ([], refl)
  walk_total (suc fuel) (head ∷ queue) visited h = elim (Bool-cases (has_id visited head)) [
    | inl e ↦ let r = walk_total fuel queue visited (omega (arith, h)) in (r.0, rw e r.1)
    | inr e ↦
        let moved = pending_visit head visited e rows in
        elim (Option-cases (by_id rows head)) [
          | inl f ↦
              let r =
                walk_total fuel (queue ++ []) (head ∷ visited)
                  (omega (arith, h, moved, length-append queue [])) in
              (r.0, rw (e, f) r.1)
          | inr f ↦
              let r =
                walk_total fuel (queue ++ children_of rows head) (head ∷ visited)
                  (omega (arith, h, moved, length-append queue (children_of rows head))) in
              (f.0 ∷ r.0, rw (e, f.1, r.1) refl)
        ]
  ]
