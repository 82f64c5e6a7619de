-- ===== src/Store/Paging.antt =====
-- internal/store/sqlite.go, internal/store/agents.go: the listings that take a limit and an offset.
use tracelab.Prelude.{
  ℕ, zero, suc, ◌+◌, ◌*◌, ◌≤◌, ◌≡◌, ◌≢◌, refl, sym, ap, ◌∙◌, Bool, true, false, List, [], ◌∷◌, ◌++◌,
  arith, ℤ, pos, negsuc, if◌then◌else◌, length, take, drop, All, Bool-cases, inl, inr,
}
use tracelab.Store.Query.{insert_by, order_by, Ordered}

-- `if offset < 0 { offset = 0 }`
abbrev pub offset_or : ℤ → ℕ
offset_or (pos n) = n
offset_or (negsuc n) = 0

-- `LIMIT ? OFFSET ?`
abbrev pub page : {A : Type 0} → ℕ → ℕ → List A → List A
page limit offset rows = take limit (drop offset rows)

module _ {A : Type 0} where
  -- The first `k` pages, one after the other.
  abbrev pub pages : (ℕ → List A) → ℕ → List A
  pages f zero = []
  pages f (suc k) = pages f k ++ f k

  -- How many rows pass a test.
  abbrev pub tally_if : (A → Bool) → List A → ℕ
  tally_if p [] = 0
  tally_if p (x ∷ xs) = (if p x then 1 else 0) + tally_if p xs

  take-≡ : (m n : ℕ) (xs : List A) → m ≡ n → take m xs ≡ take n xs
  take-≡ m n xs h = ap (λ i. take i xs) h

  take-[] : (n : ℕ) → take {A = A} n [] ≡ []
  take-[] zero = refl
  take-[] (suc n) = refl

  take-drop : (a b : ℕ) (xs : List A) → take a xs ++ take b (drop a xs) ≡ take (a + b) xs
  take-drop zero b xs = take-≡ b (0 + b) xs (omega arith)
  take-drop (suc a) b [] = take-[] b ∙ sym (take-[] (suc a + b))
  take-drop (suc a) b (x ∷ xs) =
      ap (λ ys. x ∷ ys) (take-drop a b xs) ∙ take-≡ (suc (a + b)) (suc a + b) (x ∷ xs) (omega arith)

  take-all : (n : ℕ) (xs : List A) → length xs ≤ n → take n xs ≡ xs
  take-all zero [] h = refl
  take-all (suc n) [] h = refl
  take-all zero (x ∷ xs) h = ground (arith, h)
  take-all (suc n) (x ∷ xs) h = ap (λ ys. x ∷ ys) (take-all n xs (ground (arith, h)))

  pages-take : (n k : ℕ) (xs : List A) → pages (λ i. page n (i * n) xs) k ≡ take (k * n) xs
  pages-take n zero xs = take-≡ 0 (0 * n) xs (grind arith)
  pages-take n (suc k) xs =
      rw (pages-take n k xs) (take-drop (k * n) n xs)
      ∙ take-≡ (k * n + n) (suc k * n) xs (grind arith)

  take-All : (P : A → Type 0) (n : ℕ) (xs : List A) → All P xs → All P (take n xs)
  take-All P zero xs h = tt
  take-All P (suc n) [] h = tt
  take-All P (suc n) (x ∷ xs) h = (h.0, take-All P n xs h.1)

  pub tally-take :
      (p : A → Bool) (n : ℕ) (xs : List A)
      → tally_if p (take n xs) + tally_if p (drop n xs) ≡ tally_if p xs
  tally-take p zero xs = omega arith
  tally-take p (suc n) [] = refl
  tally-take p (suc n) (x ∷ xs) = ground (arith, tally-take p n xs)

  pub length-take_full : (n : ℕ) (xs : List A) → drop n xs ≢ [] → length (take n xs) ≡ n
  length-take_full zero xs h = refl
  length-take_full (suc n) [] h = absurd (h refl)
  length-take_full (suc n) (x ∷ xs) h = ap suc (length-take_full n xs h)

  drop-All : (P : A → Type 0) (n : ℕ) (xs : List A) → All P xs → All P (drop n xs)
  drop-All P zero xs h = h
  drop-All P (suc n) [] h = tt
  drop-All P (suc n) (x ∷ xs) h = drop-All P n xs h.1

  -- Pages that reach the end make up the listing.
  pub pages_lem :
      (n k : ℕ) (xs : List A) → length xs ≤ k * n → pages (λ i. page n (i * n) xs) k ≡ xs
  pages_lem n k xs h = pages-take n k xs ∙ take-all (k * n) xs h

  module _ (before : A → A → Bool) where
    insert_by-tally :
        (p : A → Bool) (x : A) (xs : List A)
        → tally_if p (insert_by before x xs) ≡ (if p x then 1 else 0) + tally_if p xs
    unfolding insert_by
    insert_by-tally p x [] = refl
    insert_by-tally p x (y ∷ ys) = elim (Bool-cases (before x y)) [
      | inl e ↦ rw e refl
      | inr e ↦ rw (e, insert_by-tally p x ys) (omega arith)
    ]

    -- Sorting neither loses nor repeats a row.
    pub order_by-tally :
        (p : A → Bool) (xs : List A) → tally_if p (order_by before xs) ≡ tally_if p xs
    unfolding order_by
    order_by-tally p [] = refl
    order_by-tally p (x ∷ xs) =
        insert_by-tally p x (order_by before xs) ∙ rw (order_by-tally p xs) refl

    insert_by-length : (x : A) (xs : List A) → length (insert_by before x xs) ≡ suc (length xs)
    unfolding insert_by
    insert_by-length x [] = refl
    insert_by-length x (y ∷ ys) = elim (Bool-cases (before x y)) [
      | inl e ↦ rw e refl
      | inr e ↦ rw (e, insert_by-length x ys) refl
    ]

    pub order_by-length : (xs : List A) → length (order_by before xs) ≡ length xs
    unfolding order_by
    order_by-length [] = refl
    order_by-length (x ∷ xs) = insert_by-length x (order_by before xs) ∙ ap suc (order_by-length xs)

    insert_by-All :
        (P : A → Type 0) (x : A) (xs : List A) → P x → All P xs → All P (insert_by before x xs)
    unfolding insert_by
    insert_by-All P x [] h a = (h, tt)
    insert_by-All P x (y ∷ ys) h a = elim (Bool-cases (before x y)) [
      | inl e ↦ rw e (h, a)
      | inr e ↦ rw e (a.0, insert_by-All P x ys h a.1)
    ]

    pub All-below :
        (trans : (a b c : A) → before a b ≡ true → before b c ≡ true → before a c ≡ true) (x y : A)
        (ys : List A)
        → before x y ≡ true
        → All (λ z. before y z ≡ true) ys
        → All (λ z. before x z ≡ true) ys
    All-below trans x y [] h a = tt
    All-below trans x y (z ∷ zs) h a = (trans x y z h a.0, All-below trans x y zs h a.1)

    insert_by-Ordered :
        (trans : (a b c : A) → before a b ≡ true → before b c ≡ true → before a c ≡ true)
        (total : (a b : A) → before a b ≡ false → before b a ≡ true) (x : A) (xs : List A)
        → Ordered before xs
        → Ordered before (insert_by before x xs)
    unfolding insert_by
    insert_by-Ordered trans total x [] h = (tt, tt)
    insert_by-Ordered trans total x (y ∷ ys) h = elim (Bool-cases (before x y)) [
      | inl e ↦ rw e ((e, All-below trans x y ys e h.0), h)
      | inr e ↦ rw e (
        insert_by-All (λ z. before y z ≡ true) x ys (total x y e) h.0,
        insert_by-Ordered trans total x ys h.1,
      )
    ]

    -- Under a total and transitive test the listing is in order.
    pub order_by-IsOrdered :
        (trans : (a b c : A) → before a b ≡ true → before b c ≡ true → before a c ≡ true)
        (total : (a b : A) → before a b ≡ false → before b a ≡ true) (xs : List A)
        → Ordered before (order_by before xs)
    unfolding order_by
    order_by-IsOrdered trans total [] = tt
    order_by-IsOrdered trans total (x ∷ xs) =
        insert_by-Ordered trans total x (order_by before xs) (order_by-IsOrdered trans total xs)

    pub take-Ordered : (n : ℕ) (xs : List A) → Ordered before xs → Ordered before (take n xs)
    take-Ordered zero xs h = tt
    take-Ordered (suc n) [] h = tt
    take-Ordered (suc n) (x ∷ xs) h =
        (take-All (λ y. before x y ≡ true) n xs h.0, take-Ordered n xs h.1)

    -- What a LIMIT leaves out comes behind all that it keeps.
    pub Ordered-split :
        (n : ℕ) (xs : List A)
        → Ordered before xs
        → All (λ x. All (λ y. before x y ≡ true) (drop n xs)) (take n xs)
    Ordered-split zero xs h = tt
    Ordered-split (suc n) [] h = tt
    Ordered-split (suc n) (x ∷ xs) h =
        (drop-All (λ y. before x y ≡ true) n xs h.0, Ordered-split n xs h.1)

    pub order_by-All : (P : A → Type 0) (xs : List A) → All P xs → All P (order_by before xs)
    unfolding order_by
    order_by-All P [] h = tt
    order_by-All P (x ∷ xs) h = insert_by-All P x (order_by before xs) h.0 (order_by-All P xs h.1)
