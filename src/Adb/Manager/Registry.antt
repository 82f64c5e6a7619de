-- ===== src/Adb/Manager/Registry.antt =====
-- internal/adb/manager.go: the map, the goroutines and what is left to cancel.
use tracelab.Prelude.{
  ℕ, ◌+◌, ◌≤◌, ◌<◌, String, ◌≡◌, refl, ◌⊎◌, Bool, true, false, Option, none, some, List, [], ◌∷◌,
  ◌++◌, arith, ◌==◌, str_eq, eq_iff, if◌then◌else◌, Assoc, lookup, put, remove, lookup-put,
  lookup-remove, ℤ, ltb, count, count-append, Bool-cases, Option-cases, inl, inr,
}
use tracelab.Adb.Manager.{
  RunningBridge, Goroutine, BridgeManager, new_bridge_manager, start, start, launch, stop, cancel,
  exit, drop_id, ids, close, Action, starts, stops, cancels, exits, closes, step, exec,
  start_unless, exit_as, release_entry, own_entry,
}

-- Goroutine `i` is live; it is cancelled, registered under its serial, or left to be cancelled.
abbrev pub Held : BridgeManager → ℕ → Goroutine → Type 0
Held m i g =
    (g.cancelled ≡ true)
    ⊎ (own_entry (lookup g.serial m.bridges) i ≡ true)
    ⊎ (0 < count i m.releasing)

abbrev pub Live : BridgeManager → String → RunningBridge → Type 0
Live m s rb =
    (m.goroutines rb.id ≡ some (record { serial = s; cancelled = false }))
    × (rb.status.device_serial ≡ s)
    × (count rb.id m.releasing ≡ 0)

pub record IsConsistent (m : BridgeManager) : Type 0 where
  -- what the map holds runs, for that serial, and nobody is about to cancel it
  pub live : (s : String) (rb : RunningBridge) → lookup s m.bridges ≡ some rb → Live m s rb
  -- no goroutine is forgotten
  pub held : (i : ℕ) (g : Goroutine) → m.goroutines i ≡ some g → Held m i g
  pub fresh :
      (i : ℕ)
      → m.next_id ≤ i
      → (m.goroutines i ≡ none) × (count i m.releasing ≡ 0) × (count i (ids m.bridges) ≡ 0)
  pub drained : m.closed ≡ true → m.bridges ≡ []

count-put :
    (i : ℕ) (k : String) (rb : RunningBridge) (m : Assoc RunningBridge)
    → count i (ids (put k rb m)) ≤ count i (ids m) + count i (rb.id ∷ [])
unfolding put
count-put i k rb [] = omega arith
count-put i k rb ((j, v) ∷ m) = ground (arith, count-put i k rb m)

count-remove :
    (i : ℕ) (k : String) (m : Assoc RunningBridge) → count i (ids (remove k m)) ≤ count i (ids m)
unfolding remove
count-remove i k [] = omega arith
count-remove i k ((j, v) ∷ m) = ground (arith, count-remove i k m)

count-lookup :
    (i : ℕ) (k : String) (m : Assoc RunningBridge)
    → own_entry (lookup k m) i ≡ true
    → 0 < count i (ids m)
unfolding lookup
count-lookup i k [] h = cc
count-lookup i k ((j, v) ∷ m) h = elim (Bool-cases (str_eq j k)) [
  | inl e ↦ let own : (v.id == i) ≡ true = rw e at h in ground arith
  | inr e ↦
      let later : own_entry (lookup k m) i ≡ true = rw e at h in
      omega (arith, count-lookup i k m later)
]

launch-IsConsistent :
    (serial : String) (now : ℤ) (m : BridgeManager)
    → m.closed ≡ false
    → lookup serial m.bridges ≡ none
    → IsConsistent m
    → IsConsistent (launch serial now m).0
launch-IsConsistent serial now m o absent c =
    let m' = (launch serial now m).0 in
    record {
      live = λ s rb e. ground (
        arith,
        lookup-put serial s
            (record {
              id = m.next_id;
              status = record { device_serial = serial; started_at = now };
            })
            m.bridges,
        eq_iff serial s,
        c.live s rb,
        c.fresh rb.id,
        c.fresh m.next_id,
      );
      held = λ i g e. ground (
        arith,
        lookup-put serial g.serial
            (record {
              id = m.next_id;
              status = record { device_serial = serial; started_at = now };
            })
            m.bridges,
        eq_iff serial g.serial,
        c.held i g,
      );
      fresh = λ i le. ground (
        arith,
        c.fresh i,
        count-put i serial
            (record {
              id = m.next_id;
              status = record { device_serial = serial; started_at = now };
            })
            m.bridges,
      );
      drained = λ e. ground arith;
    }

start_unless-IsConsistent :
    (o : Option RunningBridge) (serial : String) (now : ℤ) (built : Bool) (m : BridgeManager)
    → lookup serial m.bridges ≡ o
    → m.closed ≡ false
    → IsConsistent m
    → IsConsistent (start_unless o serial now built m).0
start_unless-IsConsistent (some rb) serial now built m e o c = c
start_unless-IsConsistent none serial now true m e o c = launch-IsConsistent serial now m o e c
start_unless-IsConsistent none serial now false m e o c = c

start-IsConsistent :
    (serial : String) (now : ℤ) (built : Bool) (m : BridgeManager)
    → IsConsistent m
    → IsConsistent (start serial now built m).0
unfolding start
start-IsConsistent serial now built m c = elim (Bool-cases (str_eq serial "")) [
  | inl e ↦ rw e c
  | inr e ↦ rw e (elim (Bool-cases m.closed) [
    | inl o ↦ simp o c
    | inr o ↦
        simp o (start_unless-IsConsistent (lookup serial m.bridges) serial now built m refl o c)
  ])
]

remove-drained : (k : String) (m : Assoc RunningBridge) → m ≡ [] → remove k m ≡ []
unfolding remove
remove-drained k m e = rw e

release_entry-IsConsistent :
    (rb : RunningBridge) (serial : String) (m : BridgeManager)
    → lookup serial m.bridges ≡ some rb
    → IsConsistent m
    → IsConsistent (release_entry (some rb) serial m).0
release_entry-IsConsistent rb serial m e c =
    let m' = (release_entry (some rb) serial m).0 in
    record {
      live = λ s rb' e'. ground (
        arith,
        lookup-remove serial s m.bridges,
        eq_iff serial s,
        c.live s rb',
        c.live serial rb,
        count-append rb'.id m.releasing (rb.id ∷ []),
      );
      held = λ i g e'. ground (
        arith,
        lookup-remove serial g.serial m.bridges,
        eq_iff serial g.serial,
        c.held i g,
        count-append i m.releasing (rb.id ∷ []),
      );
      fresh = λ i le. ground (
        arith,
        c.fresh i,
        c.live serial rb,
        count-remove i serial m.bridges,
        count-append i m.releasing (rb.id ∷ []),
      );
      drained = λ o. remove-drained serial m.bridges (c.drained o);
    }

stop-IsConsistent :
    (serial : String) (m : BridgeManager) → IsConsistent m → IsConsistent (stop serial m).0
unfolding stop
stop-IsConsistent serial m c = elim (Option-cases (lookup serial m.bridges)) [
  | inl e ↦ rw e c
  | inr (rb, e) ↦ rw e (release_entry-IsConsistent rb serial m e c)
]

count-drop_id :
    (j i : ℕ) (xs : List ℕ) → count j (drop_id i xs) ≡ (if j == i then 0 else count j xs)
count-drop_id j i [] = ground arith
count-drop_id j i (x ∷ xs) = ground (arith, count-drop_id j i xs)

-- Only a bridge that is left to be cancelled may be.
cancel-IsConsistent :
    (i : ℕ) (m : BridgeManager)
    → 0 < count i m.releasing
    → IsConsistent m
    → IsConsistent (cancel i m)
unfolding cancel
cancel-IsConsistent i m h c = record {
  live = λ s rb e. ground (arith, c.live s rb, count-drop_id rb.id i m.releasing);
  held = λ j g e. ground (arith, c.held j g, count-drop_id j i m.releasing);
  fresh = λ j le. ground (arith, c.fresh j, count-drop_id j i m.releasing);
  drained = c.drained;
}

close_open-IsConsistent :
    (m : BridgeManager)
    → IsConsistent m
    → IsConsistent
        (record m { closed = true; bridges = []; releasing = m.releasing ++ ids m.bridges })
close_open-IsConsistent m c = record {
  live = λ s rb e. unfold lookup in cc;
  held = λ i g e. ground (
    arith,
    c.held i g,
    count-lookup i g.serial m.bridges,
    count-append i m.releasing (ids m.bridges),
  );
  fresh = λ i le. ground (arith, c.fresh i, count-append i m.releasing (ids m.bridges));
  drained = λ o. refl;
}

close-IsConsistent : (m : BridgeManager) → IsConsistent m → IsConsistent (close m)
unfolding close
close-IsConsistent m c = elim (Bool-cases m.closed) [
  | inl o ↦ simp o c
  | inr o ↦ simp o (close_open-IsConsistent m c)
]

exit_as-IsConsistent :
    (g : Goroutine) (i : ℕ) (m : BridgeManager)
    → m.goroutines i ≡ some g
    → IsConsistent m
    → IsConsistent (exit_as (some g) i m)
exit_as-IsConsistent g i m e c = record {
  live =
      λ s rb k. ground (arith, c.live s rb, eq_iff g.serial s, lookup-remove g.serial s m.bridges);
  held = λ j g' k.
      ground
        (arith, c.held j g', eq_iff g.serial g'.serial, lookup-remove g.serial g'.serial m.bridges);
  fresh = λ j le. ground (arith, c.fresh j, count-remove j g.serial m.bridges);
  drained = λ o. ground (arith, c.drained, remove-drained g.serial m.bridges);
}

exit-IsConsistent : (i : ℕ) (m : BridgeManager) → IsConsistent m → IsConsistent (exit i m)
unfolding exit
exit-IsConsistent i m c = elim (Option-cases (m.goroutines i)) [
  | inl e ↦ rw e c
  | inr (g, e) ↦ rw e (exit_as-IsConsistent g i m e c)
]

step-IsConsistent : (a : Action) (m : BridgeManager) → IsConsistent m → IsConsistent (step a m)
unfolding step
step-IsConsistent (starts serial now built) m c = start-IsConsistent serial now built m c
step-IsConsistent (stops serial) m c = stop-IsConsistent serial m c
step-IsConsistent (cancels i) m c = elim (Bool-cases (ltb 0 (count i m.releasing))) [
  | inl h ↦ rw h (cancel-IsConsistent i m (ground arith) c)
  | inr h ↦ rw h c
]
step-IsConsistent (exits i) m c = exit-IsConsistent i m c
step-IsConsistent closes m c = close-IsConsistent m c

exec-IsConsistent :
    (as' : List Action) (m : BridgeManager) → IsConsistent m → IsConsistent (exec as' m)
unfolding exec
exec-IsConsistent [] m c = c
exec-IsConsistent (a ∷ as') m c = exec-IsConsistent as' (step a m) (step-IsConsistent a m c)

-- Whatever the callers of a new manager do, and however their critical sections, cancellations
-- and goroutines interleave: each entry of the map has a live goroutine of that serial that is
-- neither cancelled nor about to be, every live goroutine is cancelled, registered under its own
-- serial or still to be cancelled by a caller, and a closed manager has no entry.
pub exec-new_bridge_manager :
    (actions : List Action) → IsConsistent (exec actions new_bridge_manager)
exec-new_bridge_manager actions = exec-IsConsistent actions new_bridge_manager (record {
  live = λ s rb e. unfold lookup in cc;
  held = λ i g e. cc;
  fresh = λ i le. (refl, refl, refl);
  drained = λ o. refl;
})
