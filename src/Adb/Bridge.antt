-- ===== src/Adb/Bridge.antt =====
-- internal/adb/bridge.go: the bridge from logcat to the store and the hub.
--
-- The store, the hub and the subprocess are the bridge's surroundings: what it asks of them is
-- the list of its effects, and what they answer (the id of a new session, a failure, the lines
-- of a subprocess, the firing of the timer, a cancellation) is an argument. Log lines are left
-- out, and so is the failure of an insert or of an end, on which the code only logs.
pub mod Loop
pub mod Batching
pub mod Broadcast
pub mod Bounds
use tracelab.Prelude.{
  ℕ, suc, ◌-◌, String, Bool, true, false, Option, none, some, List, [], ◌∷◌, ◌++◌, ℤ, pos, leb,
  str_eq, Time, unix, is_zero, unix_nano, is_positive, int_leb, if◌then◌else◌, length, get_elem?,
  Bytes, codes,
}
use mathlib.Core.Option
use tracelab.Adb.Logcat.{LogcatLine, map_logcat_level}
use tracelab.Store.Schema.{Event}
use tracelab.Ws.Hub.{Event as WsEvent}

-- `BridgeConfig` without the logger and the stream; the flags say that `Store` and `Hub` are set.
pub record BridgeConfig : Type 0 where
  pub device_serial : String
  pub tag_filter : String
  pub has_store : Bool
  pub has_hub : Bool
  pub batch_interval : ℤ
  pub batch_size : ℤ
  pub backoff_schedule : List ℤ

abbrev second : ℕ
second = 1_000_000_000

abbrev pub default_backoff : List ℤ
default_backoff = pos second ∷ pos 2_000_000_000 ∷ pos 5_000_000_000 ∷ pos 10_000_000_000 ∷ []

abbrev or_default : ℤ → ℕ → ℤ
or_default n d = if is_positive n then n else pos d

abbrev or_default_schedule : List ℤ → List ℤ
or_default_schedule [] = default_backoff
or_default_schedule (w ∷ ws) = w ∷ ws

-- `NewBridge`; `none` for nil.
unfoldable pub new_bridge : BridgeConfig → Option BridgeConfig
new_bridge cfg =
    if cfg.has_store
    then some (record cfg {
      batch_interval = or_default cfg.batch_interval 50_000_000;
      batch_size = or_default cfg.batch_size 50;
      backoff_schedule = or_default_schedule cfg.backoff_schedule;
    })
    else none

-- `backoffAt`; `none` is an index out of range, a panic.
unfoldable pub backoff_at : List ℤ → ℕ → Option ℤ
backoff_at sched n =
    if leb (length sched) n then get_elem? sched (length sched - 1) else get_elem? sched n

-- What the bridge asks of its surroundings.
pub data Effect : Type 0 where
  created : String → Effect
  inserted : String → List Event → Effect
  published : WsEvent → Effect
  ended : String → Effect

-- `pendingEvent`
pub record PendingEvent : Type 0 where
  pub store_event : Event
  pub ws_event : WsEvent

-- `buildMeta` is `json.Marshal`, a parameter: the line and the serial to the raw JSON.
module _ (build_meta : LogcatLine → String → String) (cfg : BridgeConfig) where
  -- The two events of a line, once its level is known. `now` is what `time.Now()` would give.
  abbrev pub pending_event : String → LogcatLine → ℤ → String → PendingEvent
  pending_event session_id line now level =
      let raw = build_meta line cfg.device_serial in
      let msg = line.tag ++ (codes ": " ++ line.message) in
      let ts = if is_zero line.timestamp then unix now else line.timestamp in
      record {
        store_event = record {
          id = 0;
          session_id = "";
          ts = ts;
          source = "adb";
          level = level;
          msg = msg;
          meta = raw;
        };
        ws_event = record {
          session_id = session_id;
          ts = unix_nano ts;
          source = "adb";
          level = level;
          msg = msg;
          meta = raw;
        };
      }

  -- `lineToEvent`; `none` for drop.
  unfoldable pub line_to_event : String → LogcatLine → ℤ → Option PendingEvent
  line_to_event session_id line now =
      Option.map (pending_event session_id line now) (map_logcat_level line.level)

-- What one round of the `select` in `pump` gets: a line with the clock, the closed channel, the
-- timer, or the cancellation.
pub data Signal : Type 0 where
  line : LogcatLine → ℤ → Signal
  eof : Signal
  tick : Signal
  cancelled : Signal

-- How `pump` ended; `waiting` while it has not.
pub data Stop : Type 0 where
  waiting stream_ended ctx_done : Stop

-- The variables of `pump`, and the effects so far.
pub record Pump : Type 0 where
  pub buf : List Event
  pub got_any : Bool
  pub effects : List Effect

abbrev pub start : Pump
start = record { buf = []; got_any = false; effects = [] }

-- One `InsertEvents` call, unless the batch is empty.
abbrev pub insert_batch : String → List Event → List Effect
insert_batch session_id [] = []
insert_batch session_id (e ∷ es) = inserted session_id (e ∷ es) ∷ []

-- `flush`
unfoldable pub flush : String → Pump → Pump
flush session_id p = record p { buf = []; effects = p.effects ++ insert_batch session_id p.buf }

module _ (build_meta : LogcatLine → String → String) (cfg : BridgeConfig)
    (session_id : String) where
  -- `publish`
  abbrev pub publish : WsEvent → List Effect
  publish evt = if cfg.has_hub then published evt ∷ [] else []

  -- A kept line: buffered, published, and flushed when the batch is full.
  unfoldable pub take_line : PendingEvent → Pump → Pump
  take_line evt p =
      let q = record p {
        got_any = true;
        buf = p.buf ++ evt.store_event ∷ [];
        effects = p.effects ++ publish evt.ws_event;
      } in
      if int_leb cfg.batch_size (pos (length q.buf)) then flush session_id q else q

  -- `if drop { continue }`
  abbrev pub take_kept : Option PendingEvent → Pump → Pump
  take_kept none p = p
  take_kept (some evt) p = take_line evt p

  unfoldable pub on_line : LogcatLine → ℤ → Pump → Pump
  on_line l now p = take_kept (line_to_event build_meta cfg session_id l now) p

  -- `pump`: the loop over what `select` gets.
  unfoldable pub pump : List Signal → Pump → Pump × Stop
  pump [] p = (p, waiting)
  pump (line l now ∷ ss) p = pump ss (on_line l now p)
  pump (eof ∷ ss) p = (flush session_id p, stream_ended)
  pump (tick ∷ ss) p = pump ss (flush session_id p)
  pump (cancelled ∷ ss) p = (flush session_id p, ctx_done)
