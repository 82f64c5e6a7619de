-- ===== src/Store/Crashes/Registered.antt =====
-- internal/store/sqlite.go: the rows that `UpsertCrash` leaves, and its failures.
use tracelab.Prelude.{
  ℕ, ◌+◌, ◌≤◌, ◌<◌, String, ◌≡◌, refl, sym, Bool, true, ◌&&◌, Option, none, some, List, [], ◌∷◌,
  ◌++◌, ℤ, ltb, ◌==◌, str_eq, eq_iff, if◌then◌else◌, All, All-append, Bool-cases, inl, inr, ◌≢◌,
  arith, Time, Bytes, unix_nano, is_zero, unix,
}
use tracelab.Store.Crashes.{is_at, find_crash, bump, write_crash, upsert_crash}
use tracelab.Store.Crashes.Counting.{IsRegistered, rows_at, same_crash, bump-rows_at}
use tracelab.Store.Query.{Ordered, session_exists}
use tracelab.Store.Schema.{CrashRow, Db, ok}

rows_at-append :
    (s f : String) (cs ds : List CrashRow)
    → rows_at s f (cs ++ ds) ≡ rows_at s f cs + rows_at s f ds
rows_at-append s f [] ds = omega arith
rows_at-append s f (c ∷ cs) ds = rw (rows_at-append s f cs ds) (omega arith)

rows_at-none : (s f : String) (cs : List CrashRow) → find_crash s f cs ≡ none → rows_at s f cs ≡ 0
rows_at-none s f [] e = refl
rows_at-none s f (c ∷ cs) e = elim (Bool-cases (is_at s f c)) [
  | inl b ↦ ground (arith, b, e)
  | inr b ↦ rw b (ground (arith, rows_at-none s f cs (ground (arith, b, e))))
]

-- A new row for what has none keeps the rows of every crash at one at most.
append_unique :
    (s f session fingerprint : String) (cs : List CrashRow)
    → find_crash session fingerprint cs ≡ none
    → rows_at s f cs ≤ 1
    → rows_at s f cs + same_crash s f session fingerprint ≤ 1
append_unique s f session fingerprint cs e h =
    elim (Bool-cases (str_eq session s && str_eq fingerprint f)) [
      | inl b ↦
          let p : session ≡ s = (eq_iff session s).0 (ground (arith, b)) in
          let q : fingerprint ≡ f = (eq_iff fingerprint f).0 (ground (arith, b)) in
          let z : rows_at s f cs ≡ 0 = rw (sym p, sym q) (rows_at-none session fingerprint cs e) in
          ground (arith, z)
      | inr b ↦ ground (arith, b, h)
    ]

bump-All :
    (k id : ℕ) (ts : ℤ) (cs : List CrashRow)
    → All (λ (c : CrashRow). ltb k c.id ≡ true) cs
    → All (λ (c : CrashRow). ltb k c.id ≡ true) (bump id ts cs)
bump-All k id ts [] h = tt
bump-All k id ts (c ∷ cs) h = (ground (arith, h.0), bump-All k id ts cs h.1)

bump-Ordered :
    (id : ℕ) (ts : ℤ) (cs : List CrashRow)
    → Ordered (λ (a b : CrashRow). ltb a.id b.id) cs
    → Ordered (λ (a b : CrashRow). ltb a.id b.id) (bump id ts cs)
bump-Ordered id ts [] h = tt
bump-Ordered id ts (c ∷ cs) h = elim (Bool-cases (c.id == id)) [
  | inl e ↦ rw e (bump-All c.id id ts cs h.0, bump-Ordered id ts cs h.1)
  | inr e ↦ rw e (bump-All c.id id ts cs h.0, bump-Ordered id ts cs h.1)
]

bump-below :
    (k id : ℕ) (ts : ℤ) (cs : List CrashRow)
    → All (λ (c : CrashRow). c.id ≤ k) cs
    → All (λ (c : CrashRow). c.id ≤ k) (bump id ts cs)
bump-below k id ts [] h = tt
bump-below k id ts (c ∷ cs) h = (ground (arith, h.0), bump-below k id ts cs h.1)

above-last :
    (k : ℕ) (x : CrashRow) (cs : List CrashRow)
    → k < x.id
    → All (λ (c : CrashRow). c.id ≤ k) cs
    → Ordered (λ (a b : CrashRow). ltb a.id b.id) cs
    → Ordered (λ (a b : CrashRow). ltb a.id b.id) (cs ++ x ∷ [])
above-last k x [] l b h = (tt, tt)
above-last k x (c ∷ cs) l b h = (
  All-append (λ (y : CrashRow). ltb c.id y.id ≡ true) cs (x ∷ []) h.0 (ground (arith, l, b.0), tt),
  above-last k x cs l b.1 h.1,
)

below-suc :
    (k : ℕ) (cs : List CrashRow)
    → All (λ (c : CrashRow). c.id ≤ k) cs
    → All (λ (c : CrashRow). c.id ≤ k + 1) cs
below-suc k [] h = tt
below-suc k (c ∷ cs) h = (ground (arith, h.0), below-suc k cs h.1)

write-IsRegistered :
    (session fingerprint : String) (ts : ℤ) (stacktrace : Bytes) (db : Db) (found : Option ℕ)
    → IsRegistered db
    → find_crash session fingerprint db.crashes ≡ found
    → IsRegistered (write_crash found session ts fingerprint stacktrace db)
write-IsRegistered session fingerprint ts stacktrace db none h e = record {
  rising = above-last db.crash_seq _ db.crashes (omega arith) h.below h.rising;
  below =
      All-append (λ (c : CrashRow). c.id ≤ db.crash_seq + 1) db.crashes _
        (below-suc db.crash_seq db.crashes h.below) (omega arith, tt);
  unique = λ s f.
      rw (rows_at-append s f db.crashes _)
        (ground (arith, append_unique s f session fingerprint db.crashes e (h.unique s f)));
}
write-IsRegistered session fingerprint ts stacktrace db (some id) h e = record {
  rising = bump-Ordered id ts db.crashes h.rising;
  below = bump-below db.crash_seq id ts db.crashes h.below;
  unique = λ s f. rw (bump-rows_at id ts s f db.crashes) (h.unique s f);
}

-- An upsert keeps one row at most for each crash and the ids of the table rising; when it fails,
-- for an empty fingerprint, an unknown session or a call of the engine, the tables are as before.
pub upsert_crash-IsRegistered :
    (io : ℕ → Bool) (now : ℤ) (session : String) (ts : Time) (fingerprint : String)
    (stacktrace : Bytes) (db : Db)
    → IsRegistered db
    → IsRegistered (upsert_crash io now session ts fingerprint stacktrace db).1
      × ((upsert_crash io now session ts fingerprint stacktrace db).0 ≢ ok tt
          → (upsert_crash io now session ts fingerprint stacktrace db).1 ≡ db)
unfolding upsert_crash
upsert_crash-IsRegistered io now session ts fingerprint stacktrace db h =
    let stamp = unix_nano (if is_zero ts then unix now else ts) in
    let w =
      write-IsRegistered session fingerprint stamp stacktrace db
        (find_crash session fingerprint db.crashes) h refl in
    elim (Bool-cases (str_eq fingerprint "")) [
      | inl a ↦ rw a (h, λ x. refl)
      | inr a ↦ elim (Bool-cases (io 0 && io 1)) [
        | inl b ↦ elim (Bool-cases (session_exists session db.sessions)) [
          | inl c ↦ elim (Bool-cases (io 2 && io 3 && io 4)) [
            | inl d ↦ rw (a, b, c, d) (w, λ x. absurd (x refl))
            | inr d ↦ rw (a, b, c, d) (h, λ x. refl)
          ]
          | inr c ↦ rw (a, b, c) (h, λ x. refl)
        ]
        | inr b ↦ rw (a, b) (h, λ x. refl)
      ]
    ]
