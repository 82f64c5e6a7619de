-- ===== src/Agents/Transcript/Replay.antt =====
-- internal/agents/transcript.go: lines that are processed again, as after a restart of the hub.
pub mod Timed
pub mod Restart
use tracelab.Agents.Ingest.{AgentDb}
use tracelab.Agents.Ingest.Rows.{IsTimed, IsSettled, insert-keeps, insert-quiet, insert-settles}
use tracelab.Agents.Ingest.Same.{spawn_same, token_same, verdict_same, edge_same}
use tracelab.Agents.Tables.{
  Insertion, Answer, counted, insert_row, spawn_insertion, token_insertion, verdict_insertion,
  edge_insertion,
}
use tracelab.Agents.Transcript.{
  Decoder, TranscriptRecord, TranscriptEvent, spawned, used, judged, linked, parse_transcript_time,
}
use tracelab.Agents.Transcript.Parse.{record_events, parse_transcript_line}
use tracelab.Agents.Transcript.Linked.{IsLinked, brings}
use tracelab.Agents.Transcript.Linked.Records.{record_events-IsLinked}
use tracelab.Agents.Transcript.Linked.Persisted.{Present, persist_event-ok, persist_event-Present}
use tracelab.Agents.Transcript.Persist.{
  World, persist_event, persist_one, persist_events, process_line,
}
use tracelab.Prelude.{
  ℕ, String, ◌≡◌, refl, sym, ap, ◌∙◌, subst, Bool, true, false, Option, none, some, List, [], ◌∷◌,
  ℤ, pos, int_eq, str_eq, if◌then◌else◌, All, Bool-cases, inl, inr, arith, Bytes, str_eq_refl,
  unix_nano, Time,
}
use tracelab.Store.Schema.{Result, ok}

-- The row of an event does not depend on the clock, and its table would skip it.
abbrev pub Timed : TranscriptEvent → Type 0
Timed (spawned s) = IsTimed (spawn_insertion []) s
Timed (used t) = IsTimed (token_insertion []) t
Timed (judged v) = IsTimed (verdict_insertion []) v
Timed (linked e) = IsTimed (edge_insertion []) e

abbrev pub Settled : TranscriptEvent → AgentDb → Type 0
Settled (spawned s) db = IsSettled (spawn_insertion db.sessions) s db.spawns
Settled (used t) db = IsSettled (token_insertion db.spawns) t db.tokens
Settled (judged v) db = IsSettled (verdict_insertion db.spawns) v db.verdicts
Settled (linked e) db = IsSettled (edge_insertion db.spawns) e db.edges

module _ (now : ℤ) where
  pub persist_event-keeps :
      (y e : TranscriptEvent) (db : AgentDb)
      → Settled y db
      → Settled y (persist_event counted now e db).1
  persist_event-keeps (spawned y) (spawned e) db s =
      insert-keeps (spawn_insertion db.sessions) y counted now e db.spawns s
  persist_event-keeps (spawned y) (used e) db s = s
  persist_event-keeps (spawned y) (judged e) db s = s
  persist_event-keeps (spawned y) (linked e) db s = s
  persist_event-keeps (used y) (spawned e) db s = s
  persist_event-keeps (used y) (used e) db s =
      insert-keeps (token_insertion db.spawns) y counted now e db.tokens s
  persist_event-keeps (used y) (judged e) db s = s
  persist_event-keeps (used y) (linked e) db s = s
  persist_event-keeps (judged y) (spawned e) db s = s
  persist_event-keeps (judged y) (used e) db s = s
  persist_event-keeps (judged y) (judged e) db s =
      insert-keeps (verdict_insertion db.spawns) y counted now e db.verdicts s
  persist_event-keeps (judged y) (linked e) db s = s
  persist_event-keeps (linked y) (spawned e) db s = s
  persist_event-keeps (linked y) (used e) db s = s
  persist_event-keeps (linked y) (judged e) db s = s
  persist_event-keeps (linked y) (linked e) db s =
      insert-keeps (edge_insertion db.spawns) y counted now e db.edges s

  pub persist_event-settles :
      (e : TranscriptEvent) (db : AgentDb) (n : ℕ)
      → Timed e
      → (persist_event counted now e db).0 ≡ ok n
      → Settled e (persist_event counted now e db).1
  persist_event-settles (spawned s) db n timed h =
      insert-settles (spawn_insertion db.sessions) counted now s db.spawns n spawn_same timed h
  persist_event-settles (used t) db n timed h =
      insert-settles (token_insertion db.spawns) counted now t db.tokens n token_same timed h
  persist_event-settles (judged v) db n timed h =
      insert-settles (verdict_insertion db.spawns) counted now v db.verdicts n verdict_same timed h
  persist_event-settles (linked e) db n timed h =
      insert-settles (edge_insertion db.spawns) counted now e db.edges n edge_same timed h

  pub persist_event-quiet :
      (e : TranscriptEvent) (db : AgentDb)
      → Timed e
      → Settled e db
      → persist_event counted now e db ≡ (ok 0, db)
  persist_event-quiet (spawned s) db timed h =
      rw (insert-quiet (spawn_insertion db.sessions) now s db.spawns timed h) refl
  persist_event-quiet (used t) db timed h =
      rw (insert-quiet (token_insertion db.spawns) now t db.tokens timed h) refl
  persist_event-quiet (judged v) db timed h =
      rw (insert-quiet (verdict_insertion db.spawns) now v db.verdicts timed h) refl
  persist_event-quiet (linked e) db timed h =
      rw (insert-quiet (edge_insertion db.spawns) now e db.edges timed h) refl
