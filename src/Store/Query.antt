-- ===== src/Store/Query.antt =====
-- internal/store/sqlite.go: the clauses that the SELECT statements share.
use tracelab.Prelude.{
  suc, ℕ, ◌≡◌, refl, Bool, true, false, ◌||◌, List, [], ◌∷◌, ◌++◌, ℤ, pos, negsuc, ◌==◌, str_eq,
  if◌then◌else◌, filter, All, String, Bool-cases, inl, inr, arith,
}
use tracelab.Store.Schema.{SessionRow}

-- `WHERE id = ?` on `sessions`
abbrev pub session_exists : String → List SessionRow → Bool
session_exists id [] = false
session_exists id (s ∷ ss) = str_eq s.id id || session_exists id ss

-- `if limit <= 0 { limit = d }`, and a bound that LIMIT takes.
abbrev pub limit_or : ℕ → ℤ → ℕ
limit_or d (pos n) = if n == 0 then d else n
limit_or d (negsuc n) = d

pub limit_or-suc : (d n : ℕ) → limit_or d (pos (suc n)) ≡ suc n
limit_or-suc d n = ground arith

-- `ORDER BY`, by a total test of the order: a stable insertion sort.
module _ {ℓ} {A : Type ℓ} (before : A → A → Bool) where
  unfoldable pub insert_by : A → List A → List A
  insert_by x [] = x ∷ []
  insert_by x (y ∷ ys) = if before x y then x ∷ y ∷ ys else y ∷ insert_by x ys

  unfoldable pub order_by : List A → List A
  unfolding insert_by
  order_by [] = []
  order_by (x ∷ xs) = insert_by x (order_by xs)

  -- The first goes before all the others, and so on.
  abbrev pub Ordered : List A → Type 0
  Ordered [] = Unit
  Ordered (x ∷ xs) = All (λ y. before x y ≡ true) xs × Ordered xs

  pub insert_by-first :
      (x : A) (xs : List A) → All (λ y. before x y ≡ true) xs → insert_by x xs ≡ x ∷ xs
  unfolding insert_by
  insert_by-first x [] h = refl
  insert_by-first x (y ∷ ys) h = rw h.0 refl

  -- What is in order already stays as it is.
  pub order_by-Ordered : (xs : List A) → Ordered xs → order_by xs ≡ xs
  unfolding order_by
  order_by-Ordered [] h = refl
  order_by-Ordered (x ∷ xs) h = rw (order_by-Ordered xs h.1) (insert_by-first x xs h.0)

  pub All-filter :
      (p : A → Bool) (x : A) (xs : List A)
      → All (λ y. before x y ≡ true) xs
      → All (λ y. before x y ≡ true) (filter p xs)
  All-filter p x [] h = tt
  All-filter p x (y ∷ ys) h = elim (Bool-cases (p y)) [
    | inl e ↦ rw e (h.0, All-filter p x ys h.1)
    | inr e ↦ rw e (All-filter p x ys h.1)
  ]

  pub Ordered-filter : (p : A → Bool) (xs : List A) → Ordered xs → Ordered (filter p xs)
  Ordered-filter p [] h = tt
  Ordered-filter p (x ∷ xs) h = elim (Bool-cases (p x)) [
    | inl e ↦ rw e (All-filter p x xs h.0, Ordered-filter p xs h.1)
    | inr e ↦ rw e (Ordered-filter p xs h.1)
  ]

  -- A last row that goes before all the others comes first.
  pub order_by_last :
      (x : A) (xs : List A)
      → All (λ y. before y x ≡ false) xs
      → order_by (xs ++ x ∷ []) ≡ x ∷ order_by xs
  unfolding order_by insert_by
  order_by_last x [] h = refl
  order_by_last x (y ∷ ys) h = rw (order_by_last x ys h.1, h.0) refl
