-- ===== src/Store/Crashes/Owners.antt =====
-- internal/store/sqlite.go: `ListSessionIDsWithCrashes`.
use tracelab.Prelude.{
  ℕ, ◌≤◌, String, ◌≡◌, refl, sym, ap, ◌∙◌, Bool, true, false, ◌||◌, List, [], ◌∷◌, arith, str_eq,
  eq_iff, if◌then◌else◌, map, any, Bool-cases, inl, inr,
}
use tracelab.Store.Paging.{tally_if, order_by-tally}
use tracelab.Store.Query.{order_by}
use tracelab.Store.Schema.{CrashRow, Db}
use tracelab.Store.Sessions.Listing.{text_leb}

abbrev pub is_id : String → String → Bool
is_id id x = str_eq x id

-- `SELECT DISTINCT`
unfoldable pub distinct : List String → List String
distinct [] = []
distinct (x ∷ xs) = let rest = distinct xs in if any (is_id x) rest then rest else x ∷ rest

-- `ListSessionIDsWithCrashes`
unfoldable pub session_ids_with_crashes : Db → List String
session_ids_with_crashes db =
    order_by text_leb (distinct (map (λ (c : CrashRow). c.session_id) db.crashes))

tally-none : (p : String → Bool) (xs : List String) → any p xs ≡ false → tally_if p xs ≡ 0
tally-none p [] h = refl
tally-none p (x ∷ xs) h = ground (arith, h, tally-none p xs (ground (arith, h)))

tally-some : (p : String → Bool) (xs : List String) → any p xs ≡ true → 1 ≤ tally_if p xs
tally-some p [] h = ground (arith, h)
tally-some p (x ∷ xs) h = elim (Bool-cases (p x)) [
  | inl e ↦ rw e (omega arith)
  | inr e ↦ let k : any p xs ≡ true = rw e at h in rw e (omega (arith, tally-some p xs k))
]

abbrev pub once : Bool → ℕ
once b = if b then 1 else 0

distinct-tally :
    (id : String) (xs : List String) → tally_if (is_id id) (distinct xs) ≡ once (any (is_id id) xs)
unfolding distinct
distinct-tally id [] = refl
distinct-tally id (x ∷ xs) =
    let ih = distinct-tally id xs in
    elim (Bool-cases (is_id id x)) [
      | inl e ↦
          let same : is_id x ≡ is_id id = ap is_id ((eq_iff x id).0 e) in
          elim (Bool-cases (any (is_id x) (distinct xs))) [
            | inl f ↦
                let there : 1 ≤ tally_if (is_id id) (distinct xs) =
                  tally-some (is_id id) (distinct xs)
                    (ap (λ t. any t (distinct xs)) (sym same) ∙ f) in
                rw (e, f) (ground (arith, ih, there))
            | inr f ↦
                let gone : tally_if (is_id id) (distinct xs) ≡ 0 =
                  tally-none (is_id id) (distinct xs)
                    (ap (λ t. any t (distinct xs)) (sym same) ∙ f) in
                rw (e, f) (ground (arith, e, gone))
          ]
      | inr e ↦ elim (Bool-cases (any (is_id x) (distinct xs))) [
        | inl f ↦ rw (e, f) ih
        | inr f ↦ rw (e, f) (ground (arith, ih, e))
      ]
    ]

any-map :
    (id : String) (cs : List CrashRow)
    → any (is_id id) (map (λ (c : CrashRow). c.session_id) cs)
      ≡ any (λ (c : CrashRow). str_eq c.session_id id) cs
any-map id [] = refl
any-map id (c ∷ cs) = ap (λ u. str_eq c.session_id id || u) (any-map id cs)

-- The answer of `ListSessionIDsWithCrashes` has the id of a session once if the session has a crash, and
-- not at all otherwise.
pub session_ids_with_crashes_lem :
    (db : Db) (id : String)
    → tally_if (is_id id) (session_ids_with_crashes db)
      ≡ once (any (λ (c : CrashRow). str_eq c.session_id id) db.crashes)
unfolding session_ids_with_crashes
session_ids_with_crashes_lem db id =
    let ids = map (λ (c : CrashRow). c.session_id) db.crashes in
    order_by-tally text_leb (is_id id) (distinct ids)
    ∙ distinct-tally id ids
    ∙ ap once (any-map id db.crashes)
