-- ===== src/Store/Crashes/Counting.antt =====
-- internal/store/sqlite.go: what `UpsertCrash` counts.
use tracelab.Prelude.{
  ℕ, ◌+◌, ◌≤◌, ◌<◌, String, ◌≡◌, refl, sym, ap, ◌∙◌, Bool, true, false, ◌&&◌, Option, none, some,
  List, [], ◌∷◌, ◌++◌, ℤ, ltb, ◌==◌, str_eq, eq_iff, if◌then◌else◌, All, Bool-cases, inl, inr,
  arith, Time, Bytes, unix_nano, is_zero, unix,
}
use tracelab.Store.Crashes.{is_at, find_crash, bump, write_crash, upsert_crash}
use tracelab.Store.Query.{Ordered}
use tracelab.Store.Schema.{CrashRow, Db, ok}

-- The occurrences on record for one crash.
abbrev pub tally : String → String → List CrashRow → ℕ
tally session fingerprint [] = 0
tally session fingerprint (c ∷ cs) =
    (if is_at session fingerprint c then c.count else 0) + tally session fingerprint cs

abbrev pub rows_at : String → String → List CrashRow → ℕ
rows_at session fingerprint [] = 0
rows_at session fingerprint (c ∷ cs) =
    (if is_at session fingerprint c then 1 else 0) + rows_at session fingerprint cs

-- The ids of the table rise, none is above the sequence, and no crash has two rows.
pub record IsRegistered (db : Db) : Type 0 where
  pub rising : Ordered (λ (a b : CrashRow). ltb a.id b.id) db.crashes
  pub below : All (λ (c : CrashRow). c.id ≤ db.crash_seq) db.crashes
  pub unique : (session fingerprint : String) → rows_at session fingerprint db.crashes ≤ 1

abbrev pub same_crash : String → String → String → String → ℕ
same_crash s f session fingerprint = if str_eq session s && str_eq fingerprint f then 1 else 0

bump-above :
    (id : ℕ) (ts : ℤ) (cs : List CrashRow)
    → All (λ (c : CrashRow). ltb id c.id ≡ true) cs
    → bump id ts cs ≡ cs
bump-above id ts [] h = refl
bump-above id ts (c ∷ cs) h = ground (arith, h.0, bump-above id ts cs h.1)

found-above :
    (k id : ℕ) (s f : String) (cs : List CrashRow)
    → All (λ (c : CrashRow). ltb k c.id ≡ true) cs
    → find_crash s f cs ≡ some id
    → k < id
found-above k id s f [] h e = ground (arith, e)
found-above k id s f (c ∷ cs) h e = elim (Bool-cases (is_at s f c)) [
  | inl b ↦ ground (arith, b, e, h.0)
  | inr b ↦ found-above k id s f cs h.1 (ground (arith, b, e))
]

pub bump-rows_at :
    (id : ℕ) (ts : ℤ) (s f : String) (cs : List CrashRow)
    → rows_at s f (bump id ts cs) ≡ rows_at s f cs
bump-rows_at id ts s f [] = refl
bump-rows_at id ts s f (c ∷ cs) = ground (arith, bump-rows_at id ts s f cs)

tally-hit :
    (s f : String) (id : ℕ) (ts : ℤ) (c : CrashRow) (cs : List CrashRow)
    → (c.id == id) ≡ true
    → tally s f (bump id ts (c ∷ cs))
      ≡ (if is_at s f c then c.count + 1 else 0) + tally s f (bump id ts cs)
tally-hit s f id ts c cs h = rw h refl

tally-miss :
    (s f : String) (id : ℕ) (ts : ℤ) (c : CrashRow) (cs : List CrashRow)
    → (c.id == id) ≡ false
    → tally s f (bump id ts (c ∷ cs))
      ≡ (if is_at s f c then c.count else 0) + tally s f (bump id ts cs)
tally-miss s f id ts c cs h = rw h refl

pub is_at-same :
    (s f session fingerprint : String) (c : CrashRow)
    → is_at session fingerprint c ≡ true
    → is_at s f c ≡ (str_eq session s && str_eq fingerprint f)
is_at-same s f session fingerprint c h =
    let a : c.session_id ≡ session = (eq_iff c.session_id session).0 (ground (arith, h)) in
    let b : c.fingerprint ≡ fingerprint =
      (eq_iff c.fingerprint fingerprint).0 (ground (arith, h)) in
    ap (λ u. str_eq u s && str_eq c.fingerprint f) a ∙ ap (λ u. str_eq session s && str_eq u f) b

-- The row found is the only one that an UPDATE by its id changes.
bump-tally :
    (s f session fingerprint : String) (id : ℕ) (ts : ℤ) (cs : List CrashRow)
    → Ordered (λ (a b : CrashRow). ltb a.id b.id) cs
    → find_crash session fingerprint cs ≡ some id
    → tally s f (bump id ts cs) ≡ tally s f cs + same_crash s f session fingerprint
bump-tally s f session fingerprint id ts [] h e = ground (arith, e)
bump-tally s f session fingerprint id ts (c ∷ cs) h e =
    elim (Bool-cases (is_at session fingerprint c)) [
      | inl b ↦
          let at : c.id ≡ id = ground (arith, b, e) in
          let tail : bump id ts cs ≡ cs = rw (sym at) (bump-above c.id ts cs h.0) in
          tally-hit s f id ts c cs (ground (arith, at))
          ∙ rw (tail, is_at-same s f session fingerprint c b) (ground arith)
      | inr b ↦
          let found : find_crash session fingerprint cs ≡ some id = ground (arith, b, e) in
          let above : c.id < id = found-above c.id id session fingerprint cs h.0 found in
          tally-miss s f id ts c cs (ground (arith, above))
          ∙ rw (bump-tally s f session fingerprint id ts cs h.1 found) (omega arith)
    ]

tally-append :
    (s f : String) (cs ds : List CrashRow) → tally s f (cs ++ ds) ≡ tally s f cs + tally s f ds
tally-append s f [] ds = omega arith
tally-append s f (c ∷ cs) ds = rw (tally-append s f cs ds) (omega arith)

abbrev Written : String → String → Option ℕ → String → ℤ → String → Bytes → Db → Type 0
Written s f found session ts fingerprint stacktrace db =
    tally s f (write_crash found session ts fingerprint stacktrace db).crashes
    ≡ tally s f db.crashes + same_crash s f session fingerprint

write-tally :
    (s f session fingerprint : String) (ts : ℤ) (stacktrace : Bytes) (db : Db) (found : Option ℕ)
    → IsRegistered db
    → find_crash session fingerprint db.crashes ≡ found
    → Written s f found session ts fingerprint stacktrace db
write-tally s f session fingerprint ts stacktrace db none h e =
    tally-append s f db.crashes _ ∙ omega arith
write-tally s f session fingerprint ts stacktrace db (some id) h e =
    bump-tally s f session fingerprint id ts db.crashes h.rising e

-- An upsert that succeeds adds one occurrence to its own crash and none to any other.
pub upsert_crash-tally :
    (io : ℕ → Bool) (now : ℤ) (session : String) (ts : Time) (fingerprint : String)
    (stacktrace : Bytes) (db : Db) (s f : String)
    → IsRegistered db
    → (upsert_crash io now session ts fingerprint stacktrace db).0 ≡ ok tt
    → tally s f (upsert_crash io now session ts fingerprint stacktrace db).1.crashes
      ≡ tally s f db.crashes + same_crash s f session fingerprint
unfolding upsert_crash
upsert_crash-tally io now session ts fingerprint stacktrace db s f h e = ground (
  arith,
  e,
  write-tally s f session fingerprint (unix_nano (if is_zero ts then unix now else ts)) stacktrace
      db (find_crash session fingerprint db.crashes) h refl,
)
