-- ===== src/Tests/Manager.antt =====
-- internal/adb/manager.go at concrete inputs.
use tracelab.Prelude.{
  ◌≡◌, ◌≢◌, refl, Bool, true, false, String, none, some, [], ◌∷◌, pos, arith, eq_iff, lookup, put,
}
use tracelab.Adb.Manager.{
  BridgeStatus, BridgeManager, bridge_manager_of, new_bridge_manager, started, already_running,
  start, stop, starts, stops, cancels, exits, closes, exec, step,
}
use tracelab.Adb.Manager.Overlap.{start-start, stop-stop, start-stop}
use tracelab.Adb.Manager.Registry.{IsConsistent, exec-new_bridge_manager}

abbrev status : BridgeStatus
status = record { device_serial = "d"; started_at = pos 1 }

abbrev running : BridgeManager
running = (start "d" (pos 1) true new_bridge_manager).0

exec-new_bridge_manager_example : IsConsistent (
    exec
      (starts "d" (pos 1) true
        ∷ stops "d"
        ∷ starts "d" (pos 2) true
        ∷ cancels 0
        ∷ exits 0
        ∷ closes
        ∷ [])
      new_bridge_manager)
exec-new_bridge_manager_example = exec-new_bridge_manager (
    starts "d" (pos 1) true
    ∷ stops "d"
    ∷ starts "d" (pos 2) true
    ∷ cancels 0
    ∷ exits 0
    ∷ closes
    ∷ [])

no_store : bridge_manager_of false ≡ none
no_store = refl

running-IsConsistent : IsConsistent running
unfolding exec step
running-IsConsistent = exec-new_bridge_manager (starts "d" (pos 1) true ∷ [])

named : ◌≢◌ {A = String} "d" ""
named p = let e : Path Bool false true = (eq_iff "d" "").1 p in ground (arith, e)

other : ◌≢◌ {A = String} "e" "d"
other p = let e : Path Bool false true = (eq_iff "e" "d").1 p in ground (arith, e)

start_twice : start "d" (pos 2) false running ≡ (running, already_running status)
unfolding start lookup
start_twice = start-start "d" (pos 1) (pos 2) true false new_bridge_manager status refl

stop_twice : stop "d" (stop "d" running).0 ≡ ((stop "d" running).0, none)
unfolding stop start lookup put
stop_twice = stop-stop "d" running 0 refl

-- The old bridge is cancelled, and has not ended yet.
start-stop_example :
    let between = exec (cancels 0 ∷ starts "e" (pos 2) true ∷ []) (stop "d" running).0 in
    let after = start "d" (pos 3) true between in
    (after.1 ≡ started (record { device_serial = "d"; started_at = pos 3 }))
    × (0 ≢ between.next_id)
    × ((cancelled : Bool) × (after.0.goroutines 0
          ≡ some (record { serial = "d"; cancelled = cancelled })))
    × (after.0.goroutines between.next_id ≡ some (record { serial = "d"; cancelled = false }))
unfolding start lookup put
start-stop_example =
    start-stop "d" (pos 3) running (record { id = 0; status = status })
      (cancels 0 ∷ starts "e" (pos 2) true ∷ []) running-IsConsistent refl named refl
      (tt, (other, tt))
