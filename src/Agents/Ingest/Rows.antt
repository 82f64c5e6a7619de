-- ===== src/Agents/Ingest/Rows.antt =====
-- internal/store/agents.go: INSERT OR IGNORE, run twice.
use tracelab.Prelude.{
  ℕ, suc, ◌≡◌, refl, sym, ap, subst, Bool, true, false, not, ◌||◌, List, [], ◌∷◌, ◌++◌, ℤ, pos, any,
  any-left, any-right, All, Bool-cases, inl, inr, ◌⊎◌, arith,
}
use tracelab.Agents.Ingest.{insert_each, and_then, add_count}
use tracelab.Agents.Tables.{Answer, refuses, uncounted, counted, Insertion, insert_row, told}
use tracelab.Store.Schema.{Result, ok, err, engine, invalid}

pub any-last :
    {A : Type 0} (p : A → Bool) (xs : List A) (x : A) → p x ≡ true → any p (xs ++ x ∷ []) ≡ true
any-last p xs x h = any-right p xs (x ∷ []) (rw h refl)

add_count-table : {R : Type 0} (n : ℕ) (r : Result ℕ × List R) → (add_count n r).1 ≡ r.1
add_count-table n (ok m, t) = refl
add_count-table n (err e, t) = refl

and_then-table :
    {R : Type 0} (P : List R → Type 0) (r : Result ℕ × List R) (next : List R → Result ℕ × List R)
    → P r.1
    → ((t : List R) → P t → P (next t).1)
    → P (and_then r next).1
and_then-table P (ok n, t) next h k = rw (add_count-table n (next t)) (k t h)
and_then-table P (err e, t) next h k = h

-- A chain that went through, and its two parts.
record IsThrough {R : Type 0} (r : Result ℕ × List R) (next : List R → Result ℕ × List R)
    : Type 0 where
  first : ℕ
  second : ℕ
  first-ok : r.0 ≡ ok first
  second-ok : (next r.1).0 ≡ ok second
  table : (and_then r next).1 ≡ (next r.1).1

IsThrough-count :
    {R : Type 0} (n m : ℕ) (t : List R) (next : List R → Result ℕ × List R) (r : Result ℕ × List R)
    → next t ≡ r
    → (add_count m r).0 ≡ ok n
    → IsThrough (ok m, t) next
IsThrough-count n m t next (ok i, u) e h = record {
  first = m;
  second = i;
  first-ok = refl;
  second-ok = ap (λ q. q.0) e;
  table = add_count-table m (next t);
}
IsThrough-count n m t next (err x, u) e h = ground (arith, h)

and_then-ok :
    {R : Type 0} (n : ℕ) (r : Result ℕ × List R) (next : List R → Result ℕ × List R)
    → (and_then r next).0 ≡ ok n
    → IsThrough r next
and_then-ok n (ok m, t) next h = IsThrough-count n m t next (next t) refl h
and_then-ok n (err e, t) next h = ground (arith, h)

or-right : (a b : Bool) → b ≡ true → (a || b) ≡ true
or-right true b h = refl
or-right false b h = h

module _ {A R : Type 0} (ins : Insertion A R) where
  abbrev insert : Answer → ℤ → A → List R → Result ℕ × List R
  insert = insert_row ins

  -- The row of `x` does not depend on the clock.
  abbrev pub IsTimed : A → Type 0
  IsTimed x = (now : ℤ) → ins.row now x ≡ ins.row (pos 0) x

  -- The engine would skip `x`: its arguments are good, and its row is there or breaks the CHECK.
  abbrev pub IsSettled : A → List R → Type 0
  IsSettled x t =
      (ins.ready x ≡ true)
      × ((not (ins.allowed (ins.row (pos 0) x)) || any (ins.same (ins.row (pos 0) x)) t) ≡ true)

  told-table : (a : Answer) (n : ℕ) (t : List R) → (told a n t t).1 ≡ t
  told-table refuses n t = refl
  told-table uncounted n t = refl
  told-table counted n t = refl

  told-either :
      (a : Answer) (n : ℕ) (t u : List R) → ((told a n u t).1 ≡ t) ⊎ ((told a n u t).1 ≡ u)
  told-either refuses n t u = inl refl
  told-either uncounted n t u = inr refl
  told-either counted n t u = inr refl

  told-ok : (a : Answer) (n m : ℕ) (t u : List R) → (told a n t u).0 ≡ ok m → (told a n t u).1 ≡ t
  told-ok refuses n m t u h = ground (arith, h)
  told-ok uncounted n m t u h = refl
  told-ok counted n m t u h = refl

  IsSettled-append : (x : A) (t u : List R) → IsSettled x t → IsSettled x (t ++ u)
  IsSettled-append x t u s = elim (Bool-cases (ins.allowed (ins.row (pos 0) x))) [
    | inl e ↦ (s.0, rw e (any-left (ins.same (ins.row (pos 0) x)) t u (ground (arith, e, s.1))))
    | inr e ↦ (s.0, rw e refl)
  ]

  -- What an insert leaves: the table, or the table with a row more.
  pub insert-table :
      (a : Answer) (now : ℤ) (x : A) (t : List R)
      → ((insert a now x t).1 ≡ t) ⊎ ((insert a now x t).1 ≡ t ++ ins.row now x ∷ [])
  insert-table a now x t = elim (Bool-cases (ins.ready x)) [
    | inl e ↦
        elim (Bool-cases (not (ins.allowed (ins.row now x)) || any (ins.same (ins.row now x)) t)) [
          | inl f ↦ inl (rw (e, f) (told-table a 0 t))
          | inr f ↦ elim (Bool-cases (ins.linked t (ins.row now x))) [
            | inl g ↦ rw (e, f, g) (told-either a 1 t _)
            | inr g ↦ inl (rw (e, f, g) refl)
          ]
        ]
    | inr e ↦ inl (rw e refl)
  ]

  pub insert-keeps :
      (y : A) (a : Answer) (now : ℤ) (x : A) (t : List R)
      → IsSettled y t
      → IsSettled y (insert a now x t).1
  insert-keeps y a now x t s = elim (insert-table a now x t) [
    | inl e ↦ rw e s
    | inr e ↦ rw e (IsSettled-append y t (ins.row now x ∷ []) s)
  ]

  pub insert-quiet :
      (now : ℤ) (x : A) (t : List R)
      → IsTimed x
      → IsSettled x t
      → insert counted now x t ≡ (ok 0, t)
  insert-quiet now x t timed s = rw (s.0, timed now, s.1) refl

  pub insert-settles :
      (a : Answer) (now : ℤ) (x : A) (t : List R) (n : ℕ)
      → ((r : R) → ins.same r r ≡ true)
      → IsTimed x
      → (insert a now x t).0 ≡ ok n
      → IsSettled x (insert a now x t).1
  insert-settles a now x t n same-refl timed h = elim (Bool-cases (ins.ready x)) [
    | inl e ↦
        elim (Bool-cases
          (not (ins.allowed (ins.row (pos 0) x)) || any (ins.same (ins.row (pos 0) x)) t)) [
            | inl f ↦ (e, rw (e, timed now, f, told-table a 0 t) f)
            | inr f ↦ elim (Bool-cases (ins.linked t (ins.row (pos 0) x))) [
              | inl g ↦
                  let k : (told a 1 (t ++ ins.row (pos 0) x ∷ []) t).0 ≡ ok n =
                    rw (e, timed now, f, g) at h in
                  (
                    e,
                    rw (e, timed now, f, g, told-ok a 1 n (t ++ ins.row (pos 0) x ∷ []) t k)
                        (or-right _ _ (
                          any-last (ins.same (ins.row (pos 0) x)) t (ins.row (pos 0) x)
                            (same-refl (ins.row (pos 0) x)))),
                  )
              | inr g ↦
                  let k : Path (Result ℕ) (err engine) (ok n) = rw (e, timed now, f, g) at h in
                  ground (arith, k)
            ]
          ]
    | inr e ↦ let k : Path (Result ℕ) (err invalid) (ok n) = rw e at h in ground (arith, k)
  ]

module _ {A R : Type 0} (ins : Insertion A R) where
  abbrev step : (ℕ → Answer) → (ℕ → ℤ) → ℕ → List A → List R → Result ℕ × List R
  step = insert_each (insert_row ins)

  abbrev Settled : A → List R → Type 0
  Settled = IsSettled ins

  each-keeps :
      (y : A) (io : ℕ → Answer) (clock : ℕ → ℤ) (k : ℕ) (xs : List A) (t : List R)
      → Settled y t
      → Settled y (step io clock k xs t).1
  each-keeps y io clock k [] t s = s
  each-keeps y io clock k (x ∷ xs) t s =
      and_then-table (Settled y) (insert_row ins (io k) (clock k) x t) (step io clock (suc k) xs)
        (insert-keeps ins y (io k) (clock k) x t s) (each-keeps y io clock (suc k) xs)

  each-settles :
      (io : ℕ → Answer) (clock : ℕ → ℤ) (k : ℕ) (xs : List A) (t : List R) (n : ℕ)
      → ((r : R) → ins.same r r ≡ true)
      → All (IsTimed ins) xs
      → (step io clock k xs t).0 ≡ ok n
      → All (λ x. Settled x (step io clock k xs t).1) xs
  each-settles io clock k [] t n same-refl timed h = tt
  each-settles io clock k (x ∷ xs) t n same-refl timed h =
      let r = insert_row ins (io k) (clock k) x t in
      let g = and_then-ok n r (step io clock (suc k) xs) h in
      subst (λ u. All (λ z. Settled z u) (x ∷ xs)) (sym g.table)
        (
          each-keeps x io clock (suc k) xs r.1
              (insert-settles ins (io k) (clock k) x t g.first same-refl timed.0 g.first-ok),
          each-settles io clock (suc k) xs r.1 g.second same-refl timed.1 g.second-ok,
        )

  each-quiet :
      (clock : ℕ → ℤ) (k : ℕ) (xs : List A) (t : List R)
      → All (IsTimed ins) xs
      → All (λ x. Settled x t) xs
      → step (λ n. counted) clock k xs t ≡ (ok 0, t)
  each-quiet clock k [] t timed s = refl
  each-quiet clock k (x ∷ xs) t timed s =
      rw (insert-quiet ins (clock k) x t timed.0 s.0, each-quiet clock (suc k) xs t timed.1 s.1)
        refl

  -- A loop of inserts that went through finds nothing to do when it is run again.
  pub each-repeat :
      (io : ℕ → Answer) (clock clock2 : ℕ → ℤ) (k j : ℕ) (xs : List A) (t : List R) (n : ℕ)
      → ((r : R) → ins.same r r ≡ true)
      → All (IsTimed ins) xs
      → (step io clock k xs t).0 ≡ ok n
      → step (λ n. counted) clock2 j xs (step io clock k xs t).1 ≡ (ok 0, (step io clock k xs t).1)
  each-repeat io clock clock2 k j xs t n same-refl timed h =
      each-quiet clock2 j xs (step io clock k xs t).1 timed
        (each-settles io clock k xs t n same-refl timed h)
