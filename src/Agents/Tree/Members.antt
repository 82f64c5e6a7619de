-- ===== src/Agents/Tree/Members.antt =====
-- internal/store/agents.go: membership in the lists of the tree walk, and descent by parent links.
use tracelab.Agents.Tables.{SpawnRow}
use tracelab.Agents.Tree.{by_id, has_parent, is_child_of, children_of, has_id}
use tracelab.Prelude.{
  String, ◌≡◌, ◌≢◌, refl, sym, ap, ◌∙◌, subst, Bool, true, false, ◌⊎◌, Option, none, some, List, [],
  ◌∷◌, ◌++◌, str_eq, eq_iff, str_eq_refl, All, Bool-cases, Option-cases, inl, inr, arith,
}

-- `x` stands in the list.
pub data Has {A : Type 0} (x : A) : List A → Type 0 where
  here : {xs : List A} → Has x (x ∷ xs)
  there : {y : A} {xs : List A} → Has x xs → Has x (y ∷ xs)

-- The spawns under `root`: itself, and with a spawn every row that names it as its parent.
pub data Descends (rows : List SpawnRow) (root : String) : String → Type 0 where
  itself : Descends rows root root
  child :
      {p : String} (r : SpawnRow)
      → Descends rows root p
      → Has r rows
      → r.parent_id ≡ some p
      → p ≢ ""
      → Descends rows root r.id

pub has_id-append :
    (xs ys : List String) (id : String)
    → has_id (xs ++ ys) id ≡ true
    → (has_id xs id ≡ true) ⊎ (has_id ys id ≡ true)
has_id-append [] ys id h = inr h
has_id-append (x ∷ xs) ys id h = elim (Bool-cases (str_eq x id)) [
  | inl e ↦ inl (rw e refl)
  | inr e ↦
      let k : has_id (xs ++ ys) id ≡ true = rw e at h in
      elim (has_id-append xs ys id k) [ inl l ↦ inl (rw e l) | inr r ↦ inr r ]
]

not_empty : (s : String) → s ≢ "" → str_eq s "" ≡ false
not_empty s n = elim (Bool-cases (str_eq s "")) [
  | inl e ↦ absurd (n ((eq_iff s "").0 e))
  | inr e ↦ e
]

is_child : (r : SpawnRow) (p : String) → r.parent_id ≡ some p → p ≢ "" → is_child_of p r ≡ true
is_child r p h n =
    subst (λ o. has_parent p o ≡ true) (sym h) (rw (not_empty p n, str_eq_refl p) refl)

-- A row is among the children of its parent.
pub Has-children_of :
    {r : SpawnRow} {rows : List SpawnRow} (p : String)
    → Has r rows
    → r.parent_id ≡ some p
    → p ≢ ""
    → has_id (children_of rows p) r.id ≡ true
Has-children_of {r} p here h n = rw (is_child r p h n, str_eq_refl r.id) refl
Has-children_of {r} p (there {y = y} m) h n = elim (Bool-cases (is_child_of p y)) [
  | inl e ↦ elim (Bool-cases (str_eq y.id r.id)) [
    | inl f ↦ rw (e, f) refl
    | inr f ↦ rw (e, f) (Has-children_of p m h n)
  ]
  | inr e ↦ rw e (Has-children_of p m h n)
]

pub parent_of :
    (id : String) (o : Option String) → has_parent id o ≡ true → (o ≡ some id) × (id ≢ "")
parent_of id none h = ground (arith, h)
parent_of id (some p) h = elim (Bool-cases (str_eq p "")) [
  | inl e ↦ let bad : Path Bool false true = rw e at h in ground (arith, bad)
  | inr e ↦
      let same : str_eq p id ≡ true = rw e at h in
      let equal : p ≡ id = (eq_iff p id).0 same in
      (
        ap some equal,
        λ z. let bad : str_eq p "" ≡ true = (eq_iff p "").1 (equal ∙ z) in ground (arith, bad, e),
      )
]

-- The children of a spawn under the root are under it too.
pub children-Descends :
    (rows : List SpawnRow) (root p : String) (some_rows : List SpawnRow)
    → Descends rows root p
    → ((r : SpawnRow) → Has r some_rows → Has r rows)
    → All (Descends rows root) (children_of some_rows p)
children-Descends rows root p [] d sub = tt
children-Descends rows root p (r ∷ rs) d sub =
    let rest = children-Descends rows root p rs d (λ x m. sub x (there m)) in
    elim (Bool-cases (is_child_of p r)) [
      | inl e ↦ let of = parent_of p r.parent_id e in rw e (child r d (sub r here) of.0 of.1, rest)
      | inr e ↦ rw e rest
    ]

-- What is found under an id has it, and every id of a row is found.
pub by_id-id :
    (rows : List SpawnRow) (id : String) (r : SpawnRow) → by_id rows id ≡ some r → r.id ≡ id
unfolding by_id
by_id-id [] id r h = ground (arith, h)
by_id-id (x ∷ rows) id r h = elim (Option-cases (by_id rows id)) [
  | inl e ↦ elim (Bool-cases (str_eq x.id id)) [
    | inl f ↦
        let k : Path (Option SpawnRow) (some x) (some r) = rw (e, f) at h in
        let same : x ≡ r = ground (arith, k) in subst (λ u. u.id ≡ id) same ((eq_iff x.id id).0 f)
    | inr f ↦ let k : Path (Option SpawnRow) none (some r) = rw (e, f) at h in ground (arith, k)
  ]
  | inr e ↦
      let k : Path (Option SpawnRow) (some e.0) (some r) = rw e.1 at h in
      let same : e.0 ≡ r = ground (arith, k) in by_id-id rows id r (e.1 ∙ ap some same)
]

pub by_id-found :
    {r : SpawnRow} {rows : List SpawnRow} → Has r rows → (x : SpawnRow) × (by_id rows r.id ≡ some x)
unfolding by_id
by_id-found {r} (here {xs = xs}) = elim (Option-cases (by_id xs r.id)) [
  | inl e ↦ (r, rw (e, str_eq_refl r.id) refl)
  | inr e ↦ (e.0, rw e.1 refl)
]
by_id-found {r} (there m) = let found = by_id-found m in (found.0, rw found.1 refl)

-- Every child is found.
abbrev pub IsKnown : List SpawnRow → String → Type 0
IsKnown rows id = (x : SpawnRow) × (by_id rows id ≡ some x)

pub children-IsKnown :
    (rows : List SpawnRow) (p : String) (some_rows : List SpawnRow)
    → ((r : SpawnRow) → Has r some_rows → Has r rows)
    → All (IsKnown rows) (children_of some_rows p)
children-IsKnown rows p [] sub = tt
children-IsKnown rows p (r ∷ rs) sub =
    let rest = children-IsKnown rows p rs (λ x m. sub x (there m)) in
    elim (Bool-cases (is_child_of p r)) [
      | inl e ↦ rw e (by_id-found (sub r here), rest)
      | inr e ↦ rw e rest
    ]
