-- ===== src/Adb/Manager/Overlap.antt =====
-- internal/adb/manager.go: starting and stopping the same serial again.
use tracelab.Prelude.{
  ℕ, ◌<◌, List, [], ◌∷◌, All, Bool-cases, Option-cases, inl, inr, ltb, leb, count, ◌==◌, str_eq,
  str_eq_refl, if◌then◌else◌, String, ◌≡◌, refl, ap, ◌∙◌, sym, subst, ◌≢◌, Bool, true, false, none,
  some, arith, eq_iff, lookup, lookup-put, lookup-remove, ℤ,
}
use tracelab.Adb.Manager.{
  Action, starts, stops, cancels, exits, closes, step, exec, cancel, exit, BridgeStatus,
  RunningBridge, BridgeManager, started, already_running, start, launch, stop, cancel_context,
  own_entry,
}
use tracelab.Adb.Manager.Registry.{IsConsistent}

-- A successful `Start` followed by another for the same serial: the second changes nothing and
-- reports the status of the first.
pub start-start :
    (serial : String) (now now' : ℤ) (built built' : Bool) (m : BridgeManager) (st : BridgeStatus)
    → (start serial now built m).1 ≡ started st
    → start serial now' built' (start serial now built m).0
      ≡ ((start serial now built m).0, already_running st)
unfolding start
start-start serial now now' built built' m st h = ground (
  arith,
  lookup-put serial serial
      (record { id = m.next_id; status = record { device_serial = serial; started_at = now } })
      m.bridges,
  eq_iff serial serial,
)

-- `Stop` of a running bridge, before its goroutine has ended: a second `Stop` finds nothing, and
-- changes nothing.
pub stop-stop :
    (serial : String) (m : BridgeManager) (i : ℕ)
    → (stop serial m).1 ≡ some i
    → stop serial (stop serial m).0 ≡ ((stop serial m).0, none)
unfolding stop
stop-stop serial m i h = ground (arith, lookup-remove serial serial m.bridges, eq_iff serial serial)

-- An action that may come between the unlock of a `Stop` and the end of its goroutine `i`: anything but that
-- end, a `Start` of the same serial, and `Close`.
abbrev pub Between : String → ℕ → Action → Type 0
Between serial i (starts s now built) = s ≢ serial
Between serial i (stops s) = Unit
Between serial i (cancels j) = Unit
Between serial i (exits j) = j ≢ i
Between serial i closes = ⊥

-- The serial is free, and its old goroutine still there, cancelled or not.
record IsLeft (serial : String) (i : ℕ) (m : BridgeManager) : Type 0 where
  open_still : m.closed ≡ false
  free : lookup serial m.bridges ≡ none
  cancelled : Bool
  there : m.goroutines i ≡ some (record { serial = serial; cancelled = cancelled })
  older : i < m.next_id

differs : (a b : String) → a ≢ b → str_eq a b ≡ false
differs a b n = elim (Bool-cases (str_eq a b)) [ inl e ↦ absurd (n ((eq_iff a b).0 e)) | inr e ↦ e ]

launch-IsLeft :
    (serial : String) (i : ℕ) (s : String) (now : ℤ) (m : BridgeManager)
    → s ≢ serial
    → IsLeft serial i m
    → IsLeft serial i (launch s now m).0
launch-IsLeft serial i s now m other l = record {
  open_still = l.open_still;
  free = lookup-put s serial _ m.bridges ∙ rw (differs s serial other) l.free;
  cancelled = l.cancelled;
  there = let old : (i == m.next_id) ≡ false = ground (arith, l.older) in rw old l.there;
  older = omega (arith, l.older);
}

start-IsLeft :
    (serial : String) (i : ℕ) (s : String) (now : ℤ) (built : Bool) (m : BridgeManager)
    → s ≢ serial
    → IsLeft serial i m
    → IsLeft serial i (start s now built m).0
unfolding start
start-IsLeft serial i s now built m other l = elim (Bool-cases (str_eq s "")) [
  | inl e ↦ rw e l
  | inr e ↦ elim (Option-cases (lookup s m.bridges)) [
    | inl f ↦ elim (Bool-cases built) [
      | inl b ↦
          let went : start s now built m ≡ launch s now m = rw (e, l.open_still, f, b) refl in
          subst (λ u. IsLeft serial i u.0) (sym went) (launch-IsLeft serial i s now m other l)
      | inr b ↦ simp (e, l.open_still, f, b) l
    ]
    | inr f ↦ simp (e, l.open_still, f.1) l
  ]
]

stop-IsLeft :
    (serial : String) (i : ℕ) (s : String) (m : BridgeManager)
    → IsLeft serial i m
    → IsLeft serial i (stop s m).0
unfolding stop
stop-IsLeft serial i s m l = elim (Option-cases (lookup s m.bridges)) [
  | inl f ↦ rw f l
  | inr f ↦ rw f.1 (record {
    open_still = l.open_still;
    free = lookup-remove s serial m.bridges ∙ ground (arith, l.free);
    cancelled = l.cancelled;
    there = l.there;
    older = l.older;
  })
]

cancel-IsLeft :
    (serial : String) (i j : ℕ) (m : BridgeManager)
    → IsLeft serial i m
    → IsLeft serial i (cancel j m)
unfolding cancel
cancel-IsLeft serial i j m l = record {
  open_still = l.open_still;
  free = l.free;
  cancelled = if i == j then true else l.cancelled;
  there = elim (Bool-cases (i == j)) [
    | inl e ↦
        let same : j ≡ i = ground (arith, e) in
        rw e (ap cancel_context (ap m.goroutines same ∙ l.there))
    | inr e ↦ rw e l.there
  ];
  older = l.older;
}

exit-IsLeft :
    (serial : String) (i j : ℕ) (m : BridgeManager)
    → j ≢ i
    → IsLeft serial i m
    → IsLeft serial i (exit j m)
unfolding exit
exit-IsLeft serial i j m other l = elim (Option-cases (m.goroutines j)) [
  | inl f ↦ rw f l
  | inr f ↦
      let (g, found) = f in
      rw found (record {
        open_still = l.open_still;
        free = elim (Bool-cases (own_entry (lookup g.serial m.bridges) j)) [
          | inl e ↦ rw e (lookup-remove g.serial serial m.bridges ∙ ground (arith, l.free))
          | inr e ↦ rw e l.free
        ];
        cancelled = l.cancelled;
        there = let apart : (i == j) ≡ false = ground (arith, other) in rw apart l.there;
        older = l.older;
      })
]

step-IsLeft :
    (serial : String) (i : ℕ) (a : Action) (m : BridgeManager)
    → Between serial i a
    → IsLeft serial i m
    → IsLeft serial i (step a m)
unfolding step
step-IsLeft serial i (starts s now built) m h l = start-IsLeft serial i s now built m h l
step-IsLeft serial i (stops s) m h l = stop-IsLeft serial i s m l
step-IsLeft serial i (cancels j) m h l = elim (Bool-cases (ltb 0 (count j m.releasing))) [
  | inl e ↦ rw e (cancel-IsLeft serial i j m l)
  | inr e ↦ rw e l
]
step-IsLeft serial i (exits j) m h l = exit-IsLeft serial i j m h l
step-IsLeft serial i closes m h l = absurd h

exec-IsLeft :
    (serial : String) (i : ℕ) (as' : List Action) (m : BridgeManager)
    → All (Between serial i) as'
    → IsLeft serial i m
    → IsLeft serial i (exec as' m)
unfolding exec
exec-IsLeft serial i [] m h l = l
exec-IsLeft serial i (a ∷ as') m h l =
    exec-IsLeft serial i as' (step a m) h.1 (step-IsLeft serial i a m h.0 l)

-- In a consistent open manager, take any actions between the unlock of a `Stop` and the end of the
-- goroutine that it stops, its cancellation among them or not, but no other `Start` of the serial and no
-- `Close`. A `Start` of the serial then succeeds: the old goroutine still runs for the serial, and so does
-- a second one, which is not cancelled.
pub start-stop :
    (serial : String) (now : ℤ) (m : BridgeManager) (rb : RunningBridge) (as' : List Action)
    → IsConsistent m
    → m.closed ≡ false
    → serial ≢ ""
    → lookup serial m.bridges ≡ some rb
    → All (Between serial rb.id) as'
    → let between = exec as' (stop serial m).0 in
      let after = start serial now true between in
      (after.1 ≡ started (record { device_serial = serial; started_at = now }))
      × (rb.id ≢ between.next_id)
      × ((cancelled : Bool) × (after.0.goroutines rb.id
            ≡ some (record { serial = serial; cancelled = cancelled })))
      × (after.0.goroutines between.next_id ≡ some (record { serial = serial; cancelled = false }))
unfolding start
start-stop serial now m rb as' c o named e h =
    let live = c.live serial rb e in
    let below : rb.id < m.next_id = elim (Bool-cases (leb m.next_id rb.id)) [
      | inl e ↦
          let gone = (c.fresh rb.id (ground (arith, e))).0 in
          absurd (ground (arith, sym gone ∙ live.0))
      | inr e ↦ ground (arith, e)
    ] in
    let left : IsLeft serial rb.id (stop serial m).0 =
      unfold stop in
      rw e (record {
        open_still = o;
        free = lookup-remove serial serial m.bridges ∙ rw (str_eq_refl serial) refl;
        cancelled = false;
        there = live.0;
        older = below;
      }) in
    let l = exec-IsLeft serial rb.id as' (stop serial m).0 h left in
    let m' = exec as' (stop serial m).0 in
    let apart : (rb.id == m'.next_id) ≡ false = ground (arith, l.older) in
    rw (differs serial "" named, l.open_still, l.free)
      (refl, λ same. ground (arith, same, l.older), (l.cancelled, rw apart l.there), ground arith)
