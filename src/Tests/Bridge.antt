-- ===== src/Tests/Bridge.antt =====
-- internal/adb/bridge.go at concrete inputs.
use tracelab.Prelude.{
  ◌≡◌, ◌≢◌, refl, sym, ◌∙◌, eq_iff, ◌≤◌, ◌<◌, Bool, true, false, String, none, some, List, [], ◌∷◌,
  map, pos, codes, arith, zero_time, length, is_positive, All, inl, inr, if◌then◌else◌,
}
use tracelab.Adb.Bridge.{
  BridgeConfig, new_bridge, Signal, line, eof, tick, PendingEvent, start, pump, waiting,
  stream_ended, on_line, line_to_event, take_line, flush,
}
use tracelab.Adb.Bridge.Batching.{stored, stores, kept, stored-pump}
use tracelab.Adb.Bridge.Bounds.{Batches, pump-Batches}
use tracelab.Adb.Bridge.Broadcast.{broadcast, broadcast-pump}
use tracelab.Adb.Bridge.Loop.{Attempt, session, refused, lines, clean, other_error, run, run_once}
use tracelab.Adb.Bridge.Loop.Backoff.{
  IsWait, scheduled_waits, IsDead, new_bridge_valid, run-new_bridge, run-healthy,
}
use tracelab.Adb.Bridge.Loop.Sessions.{Bracketed, IsNamed, run-Bracketed}
use tracelab.Adb.Logcat.{LogcatLine, map_logcat_level}

abbrev build_meta : LogcatLine → String → String
build_meta l serial = serial

abbrev raw : BridgeConfig
raw = record {
  device_serial = "d";
  tag_filter = "";
  has_store = true;
  has_hub = true;
  batch_interval = pos 0;
  batch_size = pos 2;
  backoff_schedule = [];
}

abbrev cfg : BridgeConfig
cfg = record raw {
  batch_interval = pos 50_000_000;
  backoff_schedule =
      pos 1_000_000_000 ∷ pos 2_000_000_000 ∷ pos 5_000_000_000 ∷ pos 10_000_000_000 ∷ [];
}

abbrev info : LogcatLine
info = record {
  timestamp = zero_time;
  pid = pos 1;
  tid = pos 1;
  level = b'I';
  tag = codes "T";
  message = codes "m";
}

-- A line of an unknown priority is dropped.
abbrev odd : LogcatLine
odd = record info { level = b'S' }

abbrev signals : List Signal
signals =
    line info (pos 1) ∷ line odd (pos 2) ∷ line info (pos 3) ∷ line info (pos 4) ∷ tick ∷ eof ∷ []

-- A connection that ends, then one that the store refuses, then a cancellation.
abbrev good : Attempt
good = record {
  cancelled_before = false;
  create = session "s";
  stream = lines signals;
  cancelled_in_wait = false;
}

abbrev bad : Attempt
bad = record good { create = refused other_error }

abbrev rounds : List Attempt
rounds = good ∷ bad ∷ record good { cancelled_before = true } ∷ []

new_bridge-raw : new_bridge raw ≡ some cfg
unfolding new_bridge
new_bridge-raw = refl

pump-signals : (pump build_meta cfg "s" signals start).1 ≡ stream_ended
unfolding pump
pump-signals = refl

ended≢waiting : stream_ended ≢ waiting
ended≢waiting p = ground (arith, p)

named : IsNamed (session "s")
named p = let e : Path Bool false true = (eq_iff "s" "").1 p in ground (arith, e)

run_once-good : (run_once build_meta cfg good.create good.stream).got_lines ≡ true
unfolding run_once pump on_line line_to_event map_logcat_level take_line flush
run_once-good = refl

outcome-good : (run_once build_meta cfg good.create good.stream).outcome ≡ clean
unfolding run_once pump
outcome-good = refl

IsDead-bad : IsDead build_meta cfg bad
unfolding run_once
IsDead-bad = record { going = refl; waits = refl; silent = refl; over = inr refl }

run-rounds : (run build_meta cfg 0 rounds).returned ≡ true
unfolding run run_once pump
run-rounds = refl

stored-pump_example :
    (stored (pump build_meta cfg "s" signals start).0.effects
      ≡ stores build_meta cfg "s" (kept build_meta cfg "s" signals))
    × ((pump build_meta cfg "s" signals start).0.buf ≡ [])
stored-pump_example =
    stored-pump build_meta cfg "s" signals (λ e. ended≢waiting (sym pump-signals ∙ e))

broadcast-pump_example : broadcast (pump build_meta cfg "s" signals start).0.effects ≡ (
    if cfg.has_hub
    then map (λ (e : PendingEvent). e.ws_event) (kept build_meta cfg "s" signals)
    else [])
broadcast-pump_example = broadcast-pump build_meta cfg "s" signals

pump-Batches_example :
    Batches build_meta cfg "s" 2 (pump build_meta cfg "s" signals start).0.effects
    × (length (pump build_meta cfg "s" signals start).0.buf ≤ 1)
pump-Batches_example = pump-Batches build_meta cfg "s" 1 signals refl

run-Bracketed_example : Bracketed none (run build_meta cfg 0 rounds).effects none
run-Bracketed_example = run-Bracketed build_meta cfg 0 rounds (named, (tt, (named, tt))) run-rounds

new_bridge_fields :
    (0 < length cfg.backoff_schedule)
    × (is_positive cfg.batch_size ≡ true)
    × (is_positive cfg.batch_interval ≡ true)
new_bridge_fields = new_bridge_valid raw cfg new_bridge-raw

run-new_bridge_example : All IsWait (run build_meta cfg 0 rounds).waits
run-new_bridge_example = run-new_bridge build_meta raw cfg rounds new_bridge-raw

run-healthy_example :
    (run build_meta cfg 3 (good ∷ bad ∷ bad ∷ [])).waits ≡ scheduled_waits build_meta cfg 0 3
run-healthy_example =
    run-healthy build_meta cfg 3 good (bad ∷ bad ∷ []) refl refl run_once-good (inl outcome-good)
      (IsDead-bad, (IsDead-bad, tt))
