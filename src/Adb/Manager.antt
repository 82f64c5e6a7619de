-- ===== src/Adb/Manager.antt =====
-- internal/adb/manager.go: the bridges that the hub runs, by serial.
--
-- Each operation is the part that it runs under the manager's mutex. What it does after the
-- unlock is a later action: `Stop` and `Close` leave the bridges that they have yet to cancel in
-- `releasing`. A goroutine of `Start` is live from its launch until its own clean-up of the map;
-- goroutines are numbered in the order of their launch, which stands for the identity of `rb`.
pub mod Registry
pub mod Overlap
use tracelab.Prelude.{
  ℕ, ◌+◌, String, Bool, true, false, not, ◌&&◌, Option, none, some, List, [], ◌∷◌, ◌++◌, map, ◌==◌,
  str_eq, if◌then◌else◌, Assoc, lookup, put, remove, values, ℤ, ltb, count,
}

-- `BridgeStatus`
pub record BridgeStatus : Type 0 where
  pub device_serial : String
  pub started_at : ℤ

-- `runningBridge`; `id` is the number of its goroutine.
pub record RunningBridge : Type 0 where
  pub id : ℕ
  pub status : BridgeStatus

-- A live goroutine: the serial it was started for, and whether its context is cancelled.
pub record Goroutine : Type 0 where
  pub serial : String
  pub cancelled : Bool

-- `BridgeManager`, its goroutines, and the bridges that callers have yet to cancel.
pub record BridgeManager : Type 0 where
  pub bridges : Assoc RunningBridge
  pub closed : Bool
  pub goroutines : ℕ → Option Goroutine
  pub next_id : ℕ
  pub releasing : List ℕ

-- The manager that `NewBridgeManager` makes.
abbrev pub new_bridge_manager : BridgeManager
new_bridge_manager = record {
  bridges = [];
  closed = false;
  goroutines = λ _. none;
  next_id = 0;
  releasing = [];
}

-- `NewBridgeManager`, whose dependencies have a store or not; `none` for nil.
abbrev pub bridge_manager_of : Bool → Option BridgeManager
bridge_manager_of has_store = if has_store then some new_bridge_manager else none

pub data StartResult : Type 0 where
  started : BridgeStatus → StartResult
  already_running : BridgeStatus → StartResult
  serial_required : StartResult
  manager_closed : StartResult
  factory_nil : StartResult

abbrev pub write : (ℕ → Option Goroutine) → ℕ → Option Goroutine → ℕ → Option Goroutine
write gs i g j = if j == i then g else gs j

-- The launch of a bridge: the entry of the map, and the goroutine.
abbrev pub launch : String → ℤ → BridgeManager → BridgeManager × StartResult
launch serial now m =
    let status : BridgeStatus = record { device_serial = serial; started_at = now } in
    (
      record m {
        bridges = put serial (record { id = m.next_id; status = status }) m.bridges;
        goroutines =
            write m.goroutines m.next_id (some (record { serial = serial; cancelled = false }));
        next_id = m.next_id + 1;
      },
      started status,
    )

abbrev start_unless :
    Option RunningBridge → String → ℤ → Bool → BridgeManager → BridgeManager × StartResult
start_unless (some existing) serial now built m = (m, already_running existing.status)
start_unless none serial now built m = if built then launch serial now m else (m, factory_nil)

-- `Start`; `built` says that the factory gave a bridge, and `now` is the clock.
unfoldable pub start : String → ℤ → Bool → BridgeManager → BridgeManager × StartResult
start serial now built m =
    if str_eq serial ""
    then (m, serial_required)
    else if m.closed
    then (m, manager_closed)
    else start_unless (lookup serial m.bridges) serial now built m

-- `none` for `ErrBridgeNotRunning`; otherwise the goroutine on which `Stop` then waits.
abbrev release_entry : Option RunningBridge → String → BridgeManager → BridgeManager × Option ℕ
release_entry none serial m = (m, none)
release_entry (some rb) serial m = (
  record m { bridges = remove serial m.bridges; releasing = m.releasing ++ rb.id ∷ [] },
  some rb.id,
)

-- `Stop` up to its unlock.
unfoldable pub stop : String → BridgeManager → BridgeManager × Option ℕ
stop serial m = release_entry (lookup serial m.bridges) serial m

-- `rb.cancel()` of `Stop` and of `Close`.
abbrev pub cancel_context : Option Goroutine → Option Goroutine
cancel_context none = none
cancel_context (some g) = some (record g { cancelled = true })

abbrev pub drop_id : ℕ → List ℕ → List ℕ
drop_id i [] = []
drop_id i (x ∷ xs) = let rest = drop_id i xs in if x == i then rest else x ∷ rest

unfoldable pub cancel : ℕ → BridgeManager → BridgeManager
cancel i m = record m {
  goroutines = write m.goroutines i (cancel_context (m.goroutines i));
  releasing = drop_id i m.releasing;
}

-- The end of a goroutine: `delete` if the entry is still its own (`cur == rb`).
abbrev own_entry : Option RunningBridge → ℕ → Bool
own_entry none i = false
own_entry (some rb) i = rb.id == i

abbrev exit_as : Option Goroutine → ℕ → BridgeManager → BridgeManager
exit_as none i m = m
exit_as (some g) i m = record m {
  bridges =
      if own_entry (lookup g.serial m.bridges) i then remove g.serial m.bridges else m.bridges;
  goroutines = write m.goroutines i none;
}

unfoldable pub exit : ℕ → BridgeManager → BridgeManager
exit i m = exit_as (m.goroutines i) i m

-- `Status`
unfoldable pub status : BridgeManager → List BridgeStatus
status m = map (λ (rb : RunningBridge). rb.status) (values m.bridges)

abbrev pub is_some {ℓ} : {A : Type ℓ} → Option A → Bool
is_some none = false
is_some (some a) = true

-- `IsRunning`
unfoldable pub is_running : String → BridgeManager → Bool
is_running serial m = is_some (lookup serial m.bridges)

abbrev pub ids : Assoc RunningBridge → List ℕ
ids m = map (λ (rb : RunningBridge). rb.id) (values m)

-- `Close` up to its unlock.
unfoldable pub close : BridgeManager → BridgeManager
close m =
    if m.closed
    then m
    else record m { closed = true; bridges = []; releasing = m.releasing ++ ids m.bridges }

-- What one goroutine of the program does in one step. Only what `Stop` or `Close` has left to
-- cancel is cancelled; a goroutine may end at any time.
pub data Action : Type 0 where
  starts : String → ℤ → Bool → Action
  stops : String → Action
  cancels : ℕ → Action
  exits : ℕ → Action
  closes : Action

unfoldable pub step : Action → BridgeManager → BridgeManager
step (starts serial now built) m = (start serial now built m).0
step (stops serial) m = (stop serial m).0
step (cancels i) m = if ltb 0 (count i m.releasing) then cancel i m else m
step (exits i) m = exit i m
step closes m = close m

unfoldable pub exec : List Action → BridgeManager → BridgeManager
exec [] m = m
exec (a ∷ as') m = exec as' (step a m)
