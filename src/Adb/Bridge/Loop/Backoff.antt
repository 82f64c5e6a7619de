-- ===== src/Adb/Bridge/Loop/Backoff.antt =====
-- internal/adb/bridge.go: the waits between reconnects.
use tracelab.Prelude.{
  ℕ, zero, suc, ◌+◌, ◌-◌, ◌<◌, ◌≤◌, String, ◌≡◌, refl, ap, ◌∙◌, ◌⊎◌, Bool, true, false, Option,
  none, some, List, [], ◌∷◌, arith, ℤ, is_positive, leb, length, get_elem?, All, Bool-cases, inl,
  inr,
}
use tracelab.Adb.Bridge.{BridgeConfig, new_bridge, or_default, or_default_schedule, backoff_at}
use tracelab.Adb.Bridge.Loop.{
  Outcome, clean, ctx_error, other_error, running, Attempt, Once, run_once, Trace, reset, reconnect,
  after, run,
}
use tracelab.Adb.Logcat.{LogcatLine}

get_elem?-below {ℓ} :
    {A : Type ℓ} (xs : List A) (i : ℕ) → i < length xs → (a : A) × (get_elem? xs i ≡ some a)
get_elem?-below [] i h = absurd (omega arith)
get_elem?-below (x ∷ xs) zero h = (x, refl)
get_elem?-below (x ∷ xs) (suc i) h = get_elem?-below xs i (omega arith)

-- A schedule that is not empty has a wait for every attempt.
backoff_at-some :
    (sched : List ℤ) (n : ℕ) → 0 < length sched → (w : ℤ) × (backoff_at sched n ≡ some w)
unfolding backoff_at
backoff_at-some sched n h = elim (Bool-cases (leb (length sched) n)) [
  | inl past ↦ rw past (get_elem?-below sched (length sched - 1) (omega arith))
  | inr inside ↦ rw inside (get_elem?-below sched n (ground arith))
]

or_default-positive : (n : ℤ) (d : ℕ) → 0 < d → is_positive (or_default n d) ≡ true
or_default-positive n d h = ground arith

or_default_schedule-pos : (ws : List ℤ) → 0 < length (or_default_schedule ws)
or_default_schedule-pos [] = omega arith
or_default_schedule-pos (w ∷ ws) = omega arith

-- What `NewBridge` returns has a positive batch size, a positive interval and a schedule.
pub new_bridge_valid :
    (cfg b : BridgeConfig)
    → new_bridge cfg ≡ some b
    → (0 < length b.backoff_schedule)
      × (is_positive b.batch_size ≡ true)
      × (is_positive b.batch_interval ≡ true)
unfolding new_bridge
new_bridge_valid cfg b e = ground (
  arith,
  or_default-positive cfg.batch_size 50,
  or_default-positive cfg.batch_interval 50_000_000,
  or_default_schedule-pos cfg.backoff_schedule,
)

abbrev pub IsWait : Option ℤ → Type 0
IsWait none = ⊥
IsWait (some w) = Unit

-- The wait with a number, counted from 0, in a schedule that repeats its last wait for ever.
abbrev pub wait_of : List ℤ → ℕ → Option ℤ
wait_of [] n = none
wait_of (w ∷ []) n = some w
wait_of (w ∷ v ∷ ws) zero = some w
wait_of (w ∷ v ∷ ws) (suc n) = wait_of (v ∷ ws) n

wait_of-inside : (ws : List ℤ) (n : ℕ) → n < length ws → get_elem? ws n ≡ wait_of ws n
wait_of-inside [] n h = absurd (omega (arith, h))
wait_of-inside (w ∷ []) zero h = refl
wait_of-inside (w ∷ []) (suc n) h = absurd (omega (arith, h))
wait_of-inside (w ∷ v ∷ ws) zero h = refl
wait_of-inside (w ∷ v ∷ ws) (suc n) h = wait_of-inside (v ∷ ws) n (omega (arith, h))

wait_of-past : (ws : List ℤ) (n : ℕ) → length ws ≤ n → get_elem? ws (length ws - 1) ≡ wait_of ws n
wait_of-past [] n h = refl
wait_of-past (w ∷ []) n h =
    let first : length (w ∷ []) - 1 ≡ 0 = omega arith in ap (λ i. get_elem? (w ∷ []) i) first
wait_of-past (w ∷ v ∷ ws) zero h = absurd (omega (arith, h))
wait_of-past (w ∷ v ∷ ws) (suc n) h =
    let next : length (w ∷ v ∷ ws) - 1 ≡ suc (length (v ∷ ws) - 1) = omega arith in
    ap (λ i. get_elem? (w ∷ v ∷ ws) i) next ∙ wait_of-past (v ∷ ws) n (omega (arith, h))

backoff_at-wait_of : (ws : List ℤ) (n : ℕ) → backoff_at ws n ≡ wait_of ws n
unfolding backoff_at
backoff_at-wait_of ws n = elim (Bool-cases (leb (length ws) n)) [
  | inl past ↦ rw past (wait_of-past ws n (ground (arith, past)))
  | inr inside ↦ rw inside (wait_of-inside ws n (ground (arith, inside)))
]

module _ (build_meta : LogcatLine → String → String) (cfg : BridgeConfig) where
  module _ (scheduled : 0 < length cfg.backoff_schedule) where
    backoff_at-IsWait : (n : ℕ) → IsWait (backoff_at cfg.backoff_schedule n)
    backoff_at-IsWait n = let (w, e) = backoff_at-some cfg.backoff_schedule n scheduled in rw e tt

    reconnect-IsWait :
        (n : ℕ) (r : Once) (c : Bool) (rest : Trace)
        → All IsWait rest.waits
        → All IsWait (reconnect cfg n r c rest).waits
    reconnect-IsWait n r true rest h = (backoff_at-IsWait n, tt)
    reconnect-IsWait n r false rest h = (backoff_at-IsWait n, h)

    after-IsWait :
        (out : Outcome) (n : ℕ) (r : Once) (c : Bool) (rest : Trace)
        → All IsWait rest.waits
        → All IsWait (after cfg out n r c rest).waits
    after-IsWait clean n r c rest h = reconnect-IsWait n r c rest h
    after-IsWait other_error n r c rest h = reconnect-IsWait n r c rest h
    after-IsWait ctx_error n r c rest h = tt
    after-IsWait running n r c rest h = tt

    run-IsWait :
        (attempt : ℕ) (rounds : List Attempt) → All IsWait (run build_meta cfg attempt rounds).waits
    unfolding run
    run-IsWait attempt [] = tt
    run-IsWait attempt (a ∷ as') = elim (Bool-cases a.cancelled_before) [
      | inl c ↦ rw c tt
      | inr c ↦
          let r = run_once build_meta cfg a.create a.stream in
          rw c (
            after-IsWait r.outcome (reset r attempt) r a.cancelled_in_wait _
              (run-IsWait (reset r attempt + 1) as'))
    ]

  -- A round that saw no line and was not cancelled.
  pub record IsDead (a : Attempt) : Type 0 where
    pub going : a.cancelled_before ≡ false
    pub waits : a.cancelled_in_wait ≡ false
    pub silent : (run_once build_meta cfg a.create a.stream).got_lines ≡ false
    pub over :
        ((run_once build_meta cfg a.create a.stream).outcome ≡ clean)
        ⊎ ((run_once build_meta cfg a.create a.stream).outcome ≡ other_error)

  -- The waits of the schedule for `n` attempts in a row, from `attempt` on.
  abbrev pub scheduled_waits : ℕ → ℕ → List (Option ℤ)
  scheduled_waits attempt zero = []
  scheduled_waits attempt (suc n) =
      wait_of cfg.backoff_schedule attempt ∷ scheduled_waits (attempt + 1) n

  after-over :
      (out : Outcome) (n : ℕ) (r : Once) (c : Bool) (rest : Trace)
      → (out ≡ clean) ⊎ (out ≡ other_error)
      → c ≡ false
      → (after cfg out n r c rest).waits ≡ backoff_at cfg.backoff_schedule n ∷ rest.waits
  after-over clean n r c rest h e = rw e refl
  after-over other_error n r c rest h e = rw e refl
  after-over ctx_error n r c rest h e = ground arith
  after-over running n r c rest h e = ground arith

  run_over :
      (attempt : ℕ) (a : Attempt) (as' : List Attempt)
      → a.cancelled_before ≡ false
      → a.cancelled_in_wait ≡ false
      → ((run_once build_meta cfg a.create a.stream).outcome ≡ clean)
        ⊎ ((run_once build_meta cfg a.create a.stream).outcome ≡ other_error)
      → let n = reset (run_once build_meta cfg a.create a.stream) attempt in
        (run build_meta cfg attempt (a ∷ as')).waits
        ≡ backoff_at cfg.backoff_schedule n ∷ (run build_meta cfg (n + 1) as').waits
  unfolding run
  run_over attempt a as' c w o =
      let r = run_once build_meta cfg a.create a.stream in
      rw c (after-over r.outcome (reset r attempt) r a.cancelled_in_wait _ o w)

  run-dead :
      (attempt : ℕ) (rounds : List Attempt)
      → All IsDead rounds
      → (run build_meta cfg attempt rounds).waits ≡ scheduled_waits attempt (length rounds)
  run-dead attempt [] dead = unfold run in refl
  run-dead attempt (a ∷ as') dead =
      let d = dead.0 in
      run_over attempt a as' d.going d.waits d.over
      ∙ rw
          (
            d.silent,
            run-dead (attempt + 1) as' dead.1,
            backoff_at-wait_of cfg.backoff_schedule attempt,
          )
          refl

  -- Whatever the counter of attempts was: after a round that saw a line, and then any number of
  -- rounds that saw none, with no cancellation, the waits are those of the schedule from its
  -- start, the last one repeated when it is used up.
  pub run-healthy :
      (attempt : ℕ) (a : Attempt) (rounds : List Attempt)
      → a.cancelled_before ≡ false
      → a.cancelled_in_wait ≡ false
      → (run_once build_meta cfg a.create a.stream).got_lines ≡ true
      → ((run_once build_meta cfg a.create a.stream).outcome ≡ clean)
        ⊎ ((run_once build_meta cfg a.create a.stream).outcome ≡ other_error)
      → All IsDead rounds
      → (run build_meta cfg attempt (a ∷ rounds)).waits ≡ scheduled_waits 0 (suc (length rounds))
  run-healthy attempt a rounds c w got o dead =
      run_over attempt a rounds c w o
      ∙ rw (got, run-dead 1 rounds dead, backoff_at-wait_of cfg.backoff_schedule 0) refl

-- A bridge that `NewBridge` made never indexes its schedule out of range, in any run.
pub run-new_bridge :
    (build_meta : LogcatLine → String → String) (cfg b : BridgeConfig) (rounds : List Attempt)
    → new_bridge cfg ≡ some b
    → All IsWait (run build_meta b 0 rounds).waits
run-new_bridge build_meta cfg b rounds e =
    run-IsWait build_meta b (new_bridge_valid cfg b e).0 0 rounds
