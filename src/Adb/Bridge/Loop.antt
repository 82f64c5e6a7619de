-- ===== src/Adb/Bridge/Loop.antt =====
-- internal/adb/bridge.go: one connection (`runOnce`) and the reconnect loop (`Run`).
pub mod Sessions
pub mod Backoff
use tracelab.Prelude.{
  ℕ, ◌+◌, String, Bool, true, false, Option, none, some, List, [], ◌∷◌, ◌++◌, ℤ, str_eq,
  if◌then◌else◌,
}
use tracelab.Adb.Bridge.{
  BridgeConfig, backoff_at, Effect, created, ended, Signal, Stop, waiting, stream_ended, ctx_done,
  start, pump,
}
use tracelab.Adb.Logcat.{LogcatLine}

-- The error that `runOnce` returns: nil, the context's, or another; `running` if it has not
-- returned, since the pump still waits.
pub data Outcome : Type 0 where
  clean ctx_error other_error running : Outcome

-- The answer of `CreateSession`, and that of the stream function: an error is `ctx_error` or
-- `other_error`.
pub data Created : Type 0 where
  session : String → Created
  refused : Outcome → Created

pub data Stream : Type 0 where
  lines : List Signal → Stream
  failed : Outcome → Stream

-- What the surroundings do in one round of `Run`.
pub record Attempt : Type 0 where
  pub cancelled_before : Bool
  pub create : Created
  pub stream : Stream
  pub cancelled_in_wait : Bool

-- What `runOnce` returns, with its effects.
pub record Once : Type 0 where
  pub session_id : String
  pub got_lines : Bool
  pub outcome : Outcome
  pub effects : List Effect

-- `endSession`
abbrev pub end_session : String → List Effect
end_session session_id = if str_eq session_id "" then [] else ended session_id ∷ []

-- The pump's return, and the `endSession` behind it.
abbrev pub finish : String → Stop → Bool → List Effect → Once
finish s waiting got fx = record {
  session_id = s;
  got_lines = got;
  outcome = running;
  effects = created s ∷ fx;
}
finish s stream_ended got fx = record {
  session_id = s;
  got_lines = got;
  outcome = clean;
  effects = created s ∷ (fx ++ end_session s);
}
finish s ctx_done got fx = record {
  session_id = s;
  got_lines = got;
  outcome = ctx_error;
  effects = created s ∷ (fx ++ end_session s);
}

-- What `Run` has done: its effects, the waits that it began (`none` for a panic), and whether
-- it has returned.
pub record Trace : Type 0 where
  pub effects : List Effect
  pub waits : List (Option ℤ)
  pub returned : Bool

abbrev pub before : List Effect → List (Option ℤ) → Trace → Trace
before fx ws t = record { effects = fx ++ t.effects; waits = ws ++ t.waits; returned = t.returned }

-- `attempt = 0` if the round saw a line
abbrev pub reset : Once → ℕ → ℕ
reset r attempt = if r.got_lines then 0 else attempt

module _ (cfg : BridgeConfig) where
  -- The rounds behind a `runOnce` that did not end with the context: the backoff, and the rest.
  abbrev pub reconnect : ℕ → Once → Bool → Trace → Trace
  reconnect attempt r cancelled rest =
      let wait = backoff_at cfg.backoff_schedule attempt ∷ [] in
      if cancelled
      then record { effects = r.effects; waits = wait; returned = true }
      else before r.effects wait rest

  abbrev pub after : Outcome → ℕ → Once → Bool → Trace → Trace
  after clean attempt r cancelled rest = reconnect attempt r cancelled rest
  after other_error attempt r cancelled rest = reconnect attempt r cancelled rest
  after ctx_error attempt r cancelled rest = record {
    effects = r.effects;
    waits = [];
    returned = true;
  }
  after running attempt r cancelled rest = record {
    effects = r.effects;
    waits = [];
    returned = false;
  }

module _ (build_meta : LogcatLine → String → String) (cfg : BridgeConfig) where
  -- `runOnce`
  unfoldable pub run_once : Created → Stream → Once
  run_once (refused e) stream = record {
    session_id = "";
    got_lines = false;
    outcome = e;
    effects = [];
  }
  run_once (session s) (failed e) = record {
    session_id = s;
    got_lines = false;
    outcome = e;
    effects = created s ∷ end_session s;
  }
  run_once (session s) (lines ss) =
      let (p, stop) = pump build_meta cfg s ss start in finish s stop p.got_any p.effects

  -- `Run`, over the rounds that its surroundings allow; at the end of the list it still runs.
  unfoldable pub run : ℕ → List Attempt → Trace
  run attempt [] = record { effects = []; waits = []; returned = false }
  run attempt (a ∷ as') =
      let r = run_once a.create a.stream in
      let attempt' = reset r attempt in
      let rest = run (attempt' + 1) as' in
      if a.cancelled_before
      then record { effects = []; waits = []; returned = true }
      else after cfg r.outcome attempt' r a.cancelled_in_wait rest
