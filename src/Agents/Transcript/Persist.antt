-- ===== src/Agents/Transcript/Persist.antt =====
-- internal/agents/transcript.go: `persistEvent` and `processLine`.
use tracelab.Agents.Ingest.{AgentDb}
use tracelab.Agents.Tables.{
  Answer, insert_agent_spawn, insert_agent_tokens, insert_agent_verdict, insert_agent_mailbox_edge,
}
use tracelab.Agents.Transcript.{Decoder, TranscriptEvent, spawned, used, judged, linked}
use tracelab.Agents.Transcript.Parse.{parse_transcript_line}
use tracelab.Prelude.{ℕ, suc, String, Option, none, some, List, [], ◌∷◌, ℤ, Bytes}
use tracelab.Store.Schema.{StoreError, Result, ok, err}

-- What the bridge logs and then goes on from.
pub data LogEntry : Type 0 where
  decode_failed : String → LogEntry
  persist_failed : String → StoreError → LogEntry
  tail_failed : String → LogEntry
  discover_failed : LogEntry

-- What the bridge works on: the tables, the statements run so far, and the log with its last entry
-- first.
pub record World : Type 0 where
  pub db : AgentDb
  pub calls : ℕ
  pub log : List LogEntry

-- `persistEvent`
abbrev pub persist_event : Answer → ℤ → TranscriptEvent → AgentDb → Result ℕ × AgentDb
persist_event answer now (spawned s) db =
    let r = insert_agent_spawn db.sessions answer now s db.spawns in
    (r.0, record db { spawns = r.1 })
persist_event answer now (used t) db =
    let r = insert_agent_tokens db.spawns answer now t db.tokens in
    (r.0, record db { tokens = r.1 })
persist_event answer now (judged v) db =
    let r = insert_agent_verdict db.spawns answer now v db.verdicts in
    (r.0, record db { verdicts = r.1 })
persist_event answer now (linked e) db =
    let r = insert_agent_mailbox_edge db.spawns answer now e db.edges in
    (r.0, record db { edges = r.1 })

abbrev pub log_result : String → Result ℕ → List LogEntry → List LogEntry
log_result path (ok n) log = log
log_result path (err e) log = persist_failed path e ∷ log

-- Statement `n` is answered by `io n` and reads the clock `clock n`.
module _ (d : Decoder) (io : ℕ → Answer) (clock : ℕ → ℤ) (path : String) where
  abbrev pub persist_one : TranscriptEvent → World → World
  persist_one e w =
      let r = persist_event (io w.calls) (clock w.calls) e w.db in
      record w { db = r.1; calls = suc w.calls; log = log_result path r.0 w.log }

  -- An error is logged and the next event is taken.
  abbrev pub persist_events : List TranscriptEvent → World → World
  persist_events [] w = w
  persist_events (e ∷ es) w = persist_events es (persist_one e w)

  abbrev pub process_parsed : Option (List TranscriptEvent) → World → World
  process_parsed none w = record w { log = decode_failed path ∷ w.log }
  process_parsed (some es) w = persist_events es w

  -- `processLine`
  unfoldable pub process_line : Bytes → World → World
  process_line line w = process_parsed (parse_transcript_line d line) w
