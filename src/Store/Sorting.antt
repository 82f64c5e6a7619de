-- ===== src/Store/Sorting.antt =====
-- internal/store/sqlite.go, internal/store/agents.go: WHERE and ORDER BY, in either order.
use tracelab.Prelude.{
  ℕ, leb, int_eq, ◌≡◌, refl, sym, ap, ◌∙◌, Bool, true, false, List, [], ◌∷◌, if◌then◌else◌, filter,
  Bool-cases, inl, inr, arith, ℤ, pos, negsuc, int_leb,
}
use tracelab.Store.Paging.{order_by-IsOrdered, All-below}
use tracelab.Store.Query.{insert_by, order_by, Ordered, insert_by-first, All-filter}

pub int_leb_trans : (a b c : ℤ) → int_leb a b ≡ true → int_leb b c ≡ true → int_leb a c ≡ true
int_leb_trans (pos a) (pos b) (pos c) h k = ground (arith, h, k)
int_leb_trans (pos a) (pos b) (negsuc c) h k = ground (arith, h, k)
int_leb_trans (pos a) (negsuc b) c h k = ground (arith, h)
int_leb_trans (negsuc a) b (pos c) h k = refl
int_leb_trans (negsuc a) (pos b) (negsuc c) h k = ground (arith, k)
int_leb_trans (negsuc a) (negsuc b) (negsuc c) h k = ground (arith, h, k)

pub int_leb_total : (a b : ℤ) → int_leb a b ≡ false → int_leb b a ≡ true
int_leb_total (pos a) (pos b) h = ground (arith, h)
int_leb_total (pos a) (negsuc b) h = refl
int_leb_total (negsuc a) (pos b) h = ground (arith, h)
int_leb_total (negsuc a) (negsuc b) h = ground (arith, h)

-- `ORDER BY ts DESC, id DESC`, of the times and the ids.
abbrev pub later : ℤ → ℤ → ℕ → ℕ → Bool
later x y i j = if int_eq x y then leb j i else int_leb y x

pub later_trans :
    (x y z : ℤ) (i j k : ℕ) → later x y i j ≡ true → later y z j k ≡ true → later x z i k ≡ true
later_trans (pos x) (pos y) (pos z) i j k h g = ground (arith, h, g)
later_trans (pos x) (pos y) (negsuc z) i j k h g = ground (arith, h, g)
later_trans (pos x) (negsuc y) (pos z) i j k h g = ground (arith, h, g)
later_trans (pos x) (negsuc y) (negsuc z) i j k h g = ground (arith, h, g)
later_trans (negsuc x) (pos y) (pos z) i j k h g = ground (arith, h, g)
later_trans (negsuc x) (pos y) (negsuc z) i j k h g = ground (arith, h, g)
later_trans (negsuc x) (negsuc y) (pos z) i j k h g = ground (arith, h, g)
later_trans (negsuc x) (negsuc y) (negsuc z) i j k h g = ground (arith, h, g)

pub later_total : (x y : ℤ) (i j : ℕ) → later x y i j ≡ false → later y x j i ≡ true
later_total (pos x) (pos y) i j h = ground (arith, h)
later_total (pos x) (negsuc y) i j h = ground (arith, h)
later_total (negsuc x) (pos y) i j h = ground (arith, h)
later_total (negsuc x) (negsuc y) i j h = ground (arith, h)

module _ {A : Type 0} (before : A → A → Bool)
    (trans : (a b c : A) → before a b ≡ true → before b c ≡ true → before a c ≡ true)
    (total : (a b : A) → before a b ≡ false → before b a ≡ true) where
  filter-insert_by :
      (p : A → Bool) (x : A) (ys : List A)
      → Ordered before ys
      → filter p (insert_by before x ys)
        ≡ (if p x then insert_by before x (filter p ys) else filter p ys)
  unfolding insert_by
  filter-insert_by p x [] o = ground arith
  filter-insert_by p x (y ∷ ys) o = elim (Bool-cases (before x y)) [
    | inl e ↦ elim (Bool-cases (p x)) [
      | inl f ↦
          rw (e, f)
            (sym (
              insert_by-first before x (filter p (y ∷ ys))
                (All-filter before p x (y ∷ ys) (e, All-below before trans x y ys e o.0))))
      | inr f ↦ rw (e, f) refl
    ]
    | inr e ↦
        let rest = filter-insert_by p x ys o.1 in
        let kept : (p x ≡ true)
            → filter p (insert_by before x ys) ≡ insert_by before x (filter p ys) =
          λ t. rest ∙ rw t refl in
        let left_out : (p x ≡ false) → filter p (insert_by before x ys) ≡ filter p ys =
          λ t. rest ∙ rw t refl in
        elim (Bool-cases (p x)) [
          | inl f ↦ elim (Bool-cases (p y)) [
            | inl g ↦ rw (e, f, g) (ap (λ u. y ∷ u) (kept f) ∙ rw e refl)
            | inr g ↦ rw (e, f, g) (kept f)
          ]
          | inr f ↦ rw (e, f) (ap (λ u. if p y then y ∷ u else u) (left_out f))
        ]
  ]

  -- The rows that pass a filter, sorted, are the sorted rows that pass it.
  pub filter-order_by :
      (p : A → Bool) (xs : List A) → filter p (order_by before xs) ≡ order_by before (filter p xs)
  unfolding order_by
  filter-order_by p [] = refl
  filter-order_by p (x ∷ xs) =
      let rest = filter-order_by p xs in
      let step =
        filter-insert_by p x (order_by before xs) (order_by-IsOrdered before trans total xs) in
      elim (Bool-cases (p x)) [
        | inl e ↦ rw e (step ∙ rw (e, rest) refl)
        | inr e ↦ rw e (step ∙ rw (e, rest) refl)
      ]
