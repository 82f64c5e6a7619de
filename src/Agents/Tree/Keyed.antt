-- ===== src/Agents/Tree/Keyed.antt =====
-- internal/store/agents.go: the rows of a project are rows of the table.
use tracelab.Agents.Tables.{SpawnRow}
use tracelab.Agents.Tree.{oldest_first, project_rows}
use tracelab.Agents.Tree.Members.{Has, here, there}
use tracelab.Agents.Tree.Order.{IsKeyed}
use tracelab.Prelude.{String, Bool, List, [], ◌∷◌, str_eq, filter, Bool-cases, inl, inr}
use tracelab.Store.Query.{order_by, insert_by}

module _ {A : Type 0} where
  Has-of_filter : (p : A → Bool) (x : A) (xs : List A) → Has x (filter p xs) → Has x xs
  Has-of_filter p x [] m = m
  Has-of_filter p x (y ∷ ys) m = elim (Bool-cases (p y)) [
    | inl e ↦ let k : Has x (y ∷ filter p ys) = rw e at m in under_head k (Has-of_filter p x ys)
    | inr e ↦ let k : Has x (filter p ys) = rw e at m in there (Has-of_filter p x ys k)
  ]
    where
      under_head :
          {z : A} {us vs : List A} → Has x (z ∷ us) → (Has x us → Has x vs) → Has x (z ∷ vs)
      under_head here f = here
      under_head (there k) f = there (f k)

  Has-of_insert_by :
      (before : A → A → Bool) (y x : A) (xs : List A)
      → Has x (insert_by before y xs)
      → Has x (y ∷ xs)
  unfolding insert_by
  Has-of_insert_by before y x [] m = m
  Has-of_insert_by before y x (z ∷ zs) m = elim (Bool-cases (before y z)) [
    | inl e ↦ let k : Has x (y ∷ z ∷ zs) = rw e at m in k
    | inr e ↦
        let k : Has x (z ∷ insert_by before y zs) = rw e at m in
        swap k (Has-of_insert_by before y x zs)
  ]
    where
      back : {u z w : A} {us : List A} → Has u (w ∷ us) → Has u (w ∷ z ∷ us)
      back here = here
      back (there k) = there (there k)

      swap :
          {u v w : A} {us vs : List A}
          → Has u (v ∷ us)
          → (Has u us → Has u (w ∷ vs))
          → Has u (w ∷ v ∷ vs)
      swap here f = there here
      swap (there k) f = back (f k)

  Has-of_order_by :
      (before : A → A → Bool) (x : A) (xs : List A) → Has x (order_by before xs) → Has x xs
  unfolding order_by
  Has-of_order_by before x [] m = m
  Has-of_order_by before x (y ∷ ys) m =
      head_or (Has-of_insert_by before y x (order_by before ys) m) (Has-of_order_by before x ys)
    where
      head_or : {u w : A} {us vs : List A} → Has u (w ∷ us) → (Has u us → Has u vs) → Has u (w ∷ vs)
      head_or here f = here
      head_or (there k) f = there (f k)

pub project_rows-IsKeyed :
    (table : List SpawnRow) (project : String)
    → IsKeyed table
    → IsKeyed (project_rows table project)
project_rows-IsKeyed table project keyed r s hr hs = keyed r s (stored r hr) (stored s hs)
  where
    stored : (x : SpawnRow) → Has x (project_rows table project) → Has x table
    stored x m =
        Has-of_filter (λ (y : SpawnRow). str_eq y.project project) x table
          (Has-of_order_by oldest_first x
            (filter (λ (y : SpawnRow). str_eq y.project project) table) m)
