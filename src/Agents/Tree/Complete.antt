-- ===== src/Agents/Tree/Complete.antt =====
-- internal/store/agents.go: the tree walk reaches every descendant of the root.

use tracelab.Agents.Tables.{SpawnRow}
use tracelab.Agents.Tree.{children_of, has_id, walk}
use tracelab.Agents.Tree.Members.{
  Has, Descends, itself, child, Has-children_of, by_id-id, IsKnown, children-IsKnown,
}
use tracelab.Agents.Tree.Rounds.{walk_ind, ids, reached, reached_step, or_left, or_right}
use tracelab.Prelude.{
  ℕ, String, ◌≡◌, ◌≢◌, refl, sym, ◌∙◌, subst, true, ◌⊎◌, Option, none, some, List, [], ◌∷◌, ◌++◌,
  str_eq, eq_iff, str_eq_refl, any-left, any-right, All, All-append, Bool-cases, inl, inr, arith,
}

module _ (rows : List SpawnRow) where
  -- `r` is a row whose parent is `id`.
  pub record IsChild (id : String) (r : SpawnRow) : Type 0 where
    pub row : Has r rows
    pub parent : r.parent_id ≡ some id
    pub named : id ≢ ""

  -- The children of what was visited were visited, or wait in the queue.
  abbrev pub IsClosed : List String → List String → Type 0
  IsClosed queue visited =
      (id : String) (r : SpawnRow)
      → has_id visited id ≡ true
      → IsChild id r
      → (has_id visited r.id ≡ true) ⊎ (has_id queue r.id ≡ true)

  pub record Complete (queue visited : List String) (out : List SpawnRow) : Type 0 where
    pub all_queued : (id : String) → has_id queue id ≡ true → reached visited out id ≡ true
    pub all_children :
        (id : String) (r : SpawnRow)
        → reached visited out id ≡ true
        → IsChild id r
        → reached visited out r.id ≡ true

  IsClosed-skip :
      (head : String) (queue visited : List String)
      → has_id visited head ≡ true
      → IsClosed (head ∷ queue) visited
      → IsClosed queue visited
  IsClosed-skip head queue visited e closed id r h c = elim (closed id r h c) [
    | inl l ↦ inl l
    | inr w ↦ elim (Bool-cases (str_eq head r.id)) [
      | inl f ↦ inl (subst (λ u. has_id visited u ≡ true) ((eq_iff head r.id).0 f) e)
      | inr f ↦ inr (ground (arith, f, w))
    ]
  ]

  IsClosed-expand :
      (head : String) (queue visited : List String)
      → IsClosed (head ∷ queue) visited
      → IsClosed (queue ++ children_of rows head) (head ∷ visited)
  IsClosed-expand head queue visited closed id r h c = elim (Bool-cases (str_eq head id)) [
    | inl e ↦
        let same : id ≡ head = sym ((eq_iff head id).0 e) in
        let waits : has_id (children_of rows id) r.id ≡ true =
          Has-children_of id c.row c.parent c.named in
        inr (
          any-right (λ (k : String). str_eq k r.id) queue (children_of rows head)
            (subst (λ u. has_id (children_of rows u) r.id ≡ true) same waits))
    | inr e ↦ elim (closed id r (ground (arith, e, h)) c) [
      | inl l ↦ inl (or_right (str_eq head r.id) (has_id visited r.id) l)
      | inr w ↦ elim (Bool-cases (str_eq head r.id)) [
        | inl f ↦ inl (rw f refl)
        | inr f ↦ inr (
            any-left (λ (k : String). str_eq k r.id) queue (children_of rows head)
              (ground (arith, f, w)))
      ]
    ]
  ]

  pub walk-Complete :
      (fuel : ℕ) (queue visited : List String) (out : List SpawnRow)
      → walk rows fuel queue visited ≡ some out
      → All (IsKnown rows) queue
      → IsClosed queue visited
      → Complete queue visited out
  walk-Complete =
      walk_ind rows
        (λ queue visited out.
          All (IsKnown rows) queue → IsClosed queue visited → Complete queue visited out)
        (λ visited known closed. record {
          all_queued = λ id h. ground (arith, h);
          all_children = λ id r h c. elim (Bool-cases (has_id visited id)) [
            | inl e ↦ elim (closed id r e c) [ inl l ↦ rw l refl | inr w ↦ ground (arith, w) ]
            | inr e ↦ ground (arith, e, h)
          ];
        })
        (λ head queue visited out e ih known closed.
          let rest = ih known.1 (IsClosed-skip head queue visited e closed) in
          record {
            all_queued = λ id h. elim (Bool-cases (str_eq head id)) [
              | inl f ↦
                  or_left (has_id visited id) (has_id (ids out) id)
                    (subst (λ u. has_id visited u ≡ true) ((eq_iff head id).0 f) e)
              | inr f ↦ rest.all_queued id (ground (arith, f, h))
            ];
            all_children = rest.all_children;
          })
        (λ head queue visited out e ih known closed.
          let found = known.0 in
          let bad : Path (Option SpawnRow) none (some found.0) = sym e ∙ found.1 in
          absurd (ground (arith, bad)))
        (λ row head queue visited rest e f ih known closed.
          let same : row.id ≡ head = by_id-id rows head row f in
          let step = λ (id : String). reached_step head visited row rest id same in
          let next =
            ih
              (All-append (IsKnown rows) queue (children_of rows head) known.1
                (children-IsKnown rows head rows (λ r m. m)))
              (IsClosed-expand head queue visited closed) in
          record {
            all_queued = λ id h. elim (Bool-cases (str_eq head id)) [
              | inl g ↦ subst (λ b. b ≡ true) (step id) (rw g refl)
              | inr g ↦
                  subst (λ b. b ≡ true) (step id)
                    (next.all_queued id (
                      any-left (λ (k : String). str_eq k id) queue (children_of rows head)
                        (ground (arith, g, h))))
            ];
            all_children = λ id r h c.
                subst (λ b. b ≡ true) (step r.id)
                  (next.all_children id r (subst (λ b. b ≡ true) (sym (step id)) h) c);
          })

  -- Whatever is under a root that the walk starts from is put out.
  pub Descends-reached :
      (root : String) (out : List SpawnRow)
      → Complete (root ∷ []) [] out
      → {id : String} → Descends rows root id
      → has_id (ids out) id ≡ true
  Descends-reached root out c itself = c.all_queued root (rw (str_eq_refl root) refl)
  Descends-reached root out c (child {p} r d m h n) =
      c.all_children p r (Descends-reached root out c d) (record { row = m; parent = h; named = n })
