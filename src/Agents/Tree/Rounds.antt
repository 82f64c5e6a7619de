-- ===== src/Agents/Tree/Rounds.antt =====
-- internal/store/agents.go: the rounds of the tree walk, and the rows that they put out.
use mathlib.Core.Option
use tracelab.Agents.Tables.{SpawnRow}
use tracelab.Agents.Tree.{by_id, children_of, has_id, walk}
use tracelab.Agents.Tree.Members.{Has, here, there, Descends, children-Descends, by_id-id}
use tracelab.Prelude.{
  ℕ, zero, suc, String, ◌≡◌, refl, sym, ap, ◌∙◌, subst, Bool, true, false, ◌||◌, Option, none, some,
  List, [], ◌∷◌, ◌++◌, map, str_eq, eq_iff, All, All-append, Bool-cases, Option-cases, inl, inr,
  arith,
}

-- A round that puts out a row, and the rest.
mapped :
    (row : SpawnRow) (o : Option (List SpawnRow)) (out : List SpawnRow)
    → Option.map (λ rest. row ∷ rest) o ≡ some out
    → (rest : List SpawnRow) × (o ≡ some rest) × (row ∷ rest ≡ out)
mapped row none out h = ground (arith, h)
mapped row (some rest) out h = (rest, refl, ground (arith, h))

-- An induction over the rounds of the walk: an empty queue, an id that was visited, an id that no row
-- has, and an id whose row is put out.
module _ (rows : List SpawnRow) (P : List String → List String → List SpawnRow → Type 0) where
  pub walk_ind :
      ((visited : List String) → P [] visited [])
      → ((head : String) (queue visited : List String) (out : List SpawnRow)
          → has_id visited head ≡ true
          → P queue visited out
          → P (head ∷ queue) visited out)
      → ((head : String) (queue visited : List String) (out : List SpawnRow)
          → by_id rows head ≡ none
          → P (queue ++ []) (head ∷ visited) out
          → P (head ∷ queue) visited out)
      → ((row : SpawnRow) (head : String) (queue visited : List String) (rest : List SpawnRow)
          → has_id visited head ≡ false
          → by_id rows head ≡ some row
          → P (queue ++ children_of rows head) (head ∷ visited) rest
          → P (head ∷ queue) visited (row ∷ rest))
      → (fuel : ℕ) (queue visited : List String) (out : List SpawnRow)
      → walk rows fuel queue visited ≡ some out
      → P queue visited out
  unfolding walk
  walk_ind done seen lost fresh zero queue visited out h = ground (arith, h)
  walk_ind done seen lost fresh (suc fuel) [] visited out h =
      subst (λ u. P [] visited u) (ground (arith, h)) (done visited)
  walk_ind done seen lost fresh (suc fuel) (head ∷ queue) visited out h =
      elim (Bool-cases (has_id visited head)) [
        | inl e ↦
            let k : walk rows fuel queue visited ≡ some out = rw e at h in
            seen head queue visited out e (walk_ind done seen lost fresh fuel queue visited out k)
        | inr e ↦ elim (Option-cases (by_id rows head)) [
          | inl f ↦
              let k : walk rows fuel (queue ++ []) (head ∷ visited) ≡ some out = rw (e, f) at h in
              lost head queue visited out f
                (walk_ind done seen lost fresh fuel (queue ++ []) (head ∷ visited) out k)
          | inr f ↦
              let next = queue ++ children_of rows head in
              let k : Option.map (λ rest. f.0 ∷ rest) (walk rows fuel next (head ∷ visited))
                  ≡ some out =
                rw (e, f.1) at h in
              let m = mapped f.0 (walk rows fuel next (head ∷ visited)) out k in
              subst (λ u. P (head ∷ queue) visited u) m.2
                (fresh f.0 head queue visited m.0 e f.1
                  (walk_ind done seen lost fresh fuel next (head ∷ visited) m.0 m.1))
        ]
      ]

abbrev pub ids : List SpawnRow → List String
ids out = map (λ (r : SpawnRow). r.id) out

-- No two rows have the same id.
abbrev pub Distinct : List SpawnRow → Type 0
Distinct [] = Unit
Distinct (r ∷ rs) = (has_id (ids rs) r.id ≡ false) × Distinct rs

-- An id that was visited or put out.
abbrev pub reached : List String → List SpawnRow → String → Bool
reached visited out id = has_id visited id || has_id (ids out) id

module _ (rows : List SpawnRow) (root : String) where
  pub walk-Descends :
      (fuel : ℕ) (queue visited : List String) (out : List SpawnRow)
      → walk rows fuel queue visited ≡ some out
      → All (Descends rows root) queue
      → All (λ (r : SpawnRow). Descends rows root r.id) out
  walk-Descends =
      walk_ind rows
        (λ queue visited out.
          All (Descends rows root) queue → All (λ (r : SpawnRow). Descends rows root r.id) out)
        (λ visited a. tt) (λ head queue visited out e ih a. ih a.1)
        (λ head queue visited out e ih a. ih (All-append (Descends rows root) queue [] a.1 tt))
        (λ row head queue visited rest e f ih a.
          let same : row.id ≡ head = by_id-id rows head row f in
          (
            subst (Descends rows root) (sym same) a.0,
            ih (
                All-append (Descends rows root) queue (children_of rows head) a.1
                  (children-Descends rows root head rows a.0 (λ r m. m))),
          ))

str_ne_sym : (a b : String) → str_eq a b ≡ false → str_eq b a ≡ false
str_ne_sym a b h = elim (Bool-cases (str_eq b a)) [
  | inl e ↦
      let bad : str_eq a b ≡ true = (eq_iff a b).1 (sym ((eq_iff b a).0 e)) in
      ground (arith, bad, h)
  | inr e ↦ e
]

abbrev pub Outside : List String → List SpawnRow → Type 0
Outside visited = All (λ (r : SpawnRow). has_id visited r.id ≡ false)

Outside-tail :
    (head : String) (visited : List String) (out : List SpawnRow)
    → Outside (head ∷ visited) out
    → Outside visited out × (has_id (ids out) head ≡ false)
Outside-tail head visited [] h = (tt, refl)
Outside-tail head visited (r ∷ rs) h =
    let rest = Outside-tail head visited rs h.1 in
    let apart : str_eq head r.id ≡ false = ground (arith, h.0) in
    ((ground (arith, h.0), rest.0), rw (str_ne_sym head r.id apart) rest.1)

pub reached_step :
    (head : String) (visited : List String) (row : SpawnRow) (rest : List SpawnRow) (id : String)
    → row.id ≡ head
    → reached (head ∷ visited) rest id ≡ reached visited (row ∷ rest) id
reached_step head visited row rest id same =
    subst (λ u. reached (u ∷ visited) rest id ≡ reached visited (row ∷ rest) id) same (ground arith)

pub or_left : (a b : Bool) → a ≡ true → (a || b) ≡ true
or_left a b h = rw h refl

pub or_right : (a b : Bool) → b ≡ true → (a || b) ≡ true
or_right true b h = refl
or_right false b h = h

module _ (rows : List SpawnRow) where
  pub walk-Distinct :
      (fuel : ℕ) (queue visited : List String) (out : List SpawnRow)
      → walk rows fuel queue visited ≡ some out
      → Outside visited out × Distinct out
  walk-Distinct =
      walk_ind rows (λ queue visited out. Outside visited out × Distinct out) (λ visited. (tt, tt))
        (λ head queue visited out e ih. ih)
        (λ head queue visited out e ih. ((Outside-tail head visited out ih.0).0, ih.1))
        (λ row head queue visited rest e f ih.
          let same : row.id ≡ head = by_id-id rows head row f in
          let tail = Outside-tail head visited rest ih.0 in
          (
            (subst (λ u. has_id visited u ≡ false) (sym same) e, tail.0),
            (subst (λ u. has_id (ids rest) u ≡ false) (sym same) tail.1, ih.1),
          ))

  pub by_id-Has :
      (some_rows : List SpawnRow) (id : String) (r : SpawnRow)
      → by_id some_rows id ≡ some r
      → Has r some_rows
  unfolding by_id
  by_id-Has [] id r h = ground (arith, h)
  by_id-Has (x ∷ xs) id r h = elim (Option-cases (by_id xs id)) [
    | inl e ↦ elim (Bool-cases (str_eq x.id id)) [
      | inl f ↦
          let k : Path (Option SpawnRow) (some x) (some r) = rw (e, f) at h in
          let same : x ≡ r = ground (arith, k) in subst (λ u. Has u (x ∷ xs)) same here
      | inr f ↦ let k : Path (Option SpawnRow) none (some r) = rw (e, f) at h in ground (arith, k)
    ]
    | inr e ↦
        let k : Path (Option SpawnRow) (some e.0) (some r) = rw e.1 at h in
        let same : e.0 ≡ r = ground (arith, k) in there (by_id-Has xs id r (e.1 ∙ ap some same))
  ]

  pub walk-Has :
      (fuel : ℕ) (queue visited : List String) (out : List SpawnRow)
      → walk rows fuel queue visited ≡ some out
      → All (λ (r : SpawnRow). Has r rows) out
  walk-Has =
      walk_ind rows (λ queue visited out. All (λ (r : SpawnRow). Has r rows) out) (λ visited. tt)
        (λ head queue visited out e ih. ih) (λ head queue visited out e ih. ih)
        (λ row head queue visited rest e f ih. (by_id-Has rows head row f, ih))
