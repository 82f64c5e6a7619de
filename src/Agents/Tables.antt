-- ===== src/Agents/Tables.antt =====
-- internal/store/agents.go, internal/store/migrations/0003_agents_schema.up.sql,
-- internal/store/migrations/0005_agent_event_refs.up.sql: the agent tables and their inserts.
--
-- A table lists its rows in the order of their rowids. INSERT OR IGNORE is written out: a row that
-- breaks the CHECK or the UNIQUE index of its table is skipped, one that breaks a foreign key fails.
use mathlib.Core.Option
use tracelab.Prelude.{
  ℕ, String, Bool, true, not, ◌&&◌, ◌||◌, Option, none, some, List, [], ◌∷◌, ◌++◌, ℤ, pos, str_eq,
  if◌then◌else◌, any, int_eq, is_positive, Time, unix, is_zero, unix_nano,
}
use tracelab.Agents.Payload.{
  one_of, valid_sources, valid_verdicts, valid_edge_types, valid_event_ref_types,
}
use tracelab.Store.Schema.{SessionRow, EventRow, engine, invalid, Result, ok, err}
use tracelab.Store.Query.{session_exists}

pub record AgentSpawn : Type 0 where
  pub id : String
  pub parent_id : String
  pub skill : String
  pub started_at : Time
  pub ended_at : Option Time
  pub project : String
  pub session_ref : String

pub record AgentTokenUsage : Type 0 where
  pub spawn_id : String
  pub input_tokens : ℤ
  pub output_tokens : ℤ
  pub cache_read : ℤ
  pub cache_write : ℤ
  pub ts : Time
  pub source : String

pub record AgentVerdict : Type 0 where
  pub spawn_id : String
  pub verdict : String
  pub lerneffekt_md : String
  pub ts : Time

pub record AgentMailboxEdge : Type 0 where
  pub from_spawn_id : String
  pub to_spawn_id : String
  pub edge_type : String
  pub ts : Time

pub record AgentEventRef : Type 0 where
  pub spawn_id : String
  pub event_id : ℤ
  pub ref_type : String
  pub ts : Time

-- A row of `agent_spawns`.
pub record SpawnRow : Type 0 where
  pub id : String
  pub parent_id : Option String
  pub skill : String
  pub started_at : ℤ
  pub ended_at : Option ℤ
  pub project : String
  pub session_ref : Option String

-- What the engine answers to an INSERT: an error, a success whose row count cannot be read, or a success.
pub data Answer : Type 0 where
  refuses uncounted counted : Answer

-- The outcome of a write, and the table after it.
abbrev pub told : {R : Type 0} → Answer → ℕ → List R → List R → Result ℕ × List R
told refuses n after before = (err engine, before)
told uncounted n after before = (err engine, after)
told counted n after before = (ok n, after)

-- What tells one insert method from another: `ready` is its check of the arguments, `row` the row that
-- it writes (`now` is the clock, for a zero time), `same` the UNIQUE index, `allowed` the CHECK and
-- `linked` the foreign keys.
pub record Insertion (A R : Type 0) : Type 0 where
  pub ready : A → Bool
  pub row : ℤ → A → R
  pub same : R → R → Bool
  pub allowed : R → Bool
  pub linked : List R → R → Bool

-- One call of an insert method on its table.
abbrev pub insert_row : {A R : Type 0} → Insertion A R → Answer → ℤ → A → List R → Result ℕ × List R
insert_row ins answer now x table =
    if ins.ready x
    then (if not (ins.allowed (ins.row now x)) || any (ins.same (ins.row now x)) table
        then told answer 0 table table
        else if ins.linked table (ins.row now x)
        then told answer 1 (table ++ ins.row now x ∷ []) table
        else (err engine, table))
    else (err invalid, table)

-- `if ts.IsZero() { ts = time.Now() }`, as a column.
abbrev pub stamp : ℤ → Time → ℤ
stamp now t = unix_nano (if is_zero t then unix now else t)

-- An empty string is NULL.
abbrev pub nullable : String → Option String
nullable s = if str_eq s "" then none else some s

abbrev pub has_spawn : List SpawnRow → String → Bool
has_spawn spawns id = any (λ (s : SpawnRow). str_eq s.id id) spawns

abbrev nullable_in : (String → Bool) → Option String → Bool
nullable_in p none = true
nullable_in p (some s) = p s

abbrev pub spawn_row : ℤ → AgentSpawn → SpawnRow
spawn_row now s = record {
  id = s.id;
  parent_id = nullable s.parent_id;
  skill = s.skill;
  started_at = stamp now s.started_at;
  ended_at = Option.map unix_nano s.ended_at;
  project = s.project;
  session_ref = nullable s.session_ref;
}

-- `InsertAgentSpawn`. A spawn may be its own parent, as far as the foreign key goes.
abbrev pub spawn_insertion : List SessionRow → Insertion AgentSpawn SpawnRow
spawn_insertion sessions = record {
  ready = λ (s : AgentSpawn).
      not (str_eq s.id "") && not (str_eq s.skill "") && not (str_eq s.project "");
  row = spawn_row;
  same = λ (a b : SpawnRow). str_eq b.id a.id;
  allowed = λ (r : SpawnRow). true;
  linked = λ (spawns : List SpawnRow) (r : SpawnRow).
      nullable_in (λ p. str_eq r.id p || has_spawn spawns p) r.parent_id
      && nullable_in (λ s. session_exists s sessions) r.session_ref;
}

abbrev pub insert_agent_spawn :
    List SessionRow → Answer → ℤ → AgentSpawn → List SpawnRow → Result ℕ × List SpawnRow
insert_agent_spawn sessions = insert_row (spawn_insertion sessions)

-- The rows of `agent_tokens`, `agent_verdicts`, `agent_mailbox_edges` and `agent_event_refs`
-- are the structs with the time in nanoseconds: the time column is never zero.
abbrev pub token_row : ℤ → AgentTokenUsage → AgentTokenUsage
token_row now t = record t { ts = unix (stamp now t.ts) }

abbrev pub verdict_row : ℤ → AgentVerdict → AgentVerdict
verdict_row now v = record v { ts = unix (stamp now v.ts) }

abbrev pub edge_row : ℤ → AgentMailboxEdge → AgentMailboxEdge
edge_row now e = record e { ts = unix (stamp now e.ts) }

abbrev pub event_ref_row : ℤ → AgentEventRef → AgentEventRef
event_ref_row now r = record r { ts = unix (stamp now r.ts) }

abbrev pub same_ts : Time → Time → Bool
same_ts a b = int_eq (unix_nano a) (unix_nano b)

-- `InsertAgentTokens`
abbrev pub token_insertion : List SpawnRow → Insertion AgentTokenUsage AgentTokenUsage
token_insertion spawns = record {
  ready = λ (t : AgentTokenUsage). not (str_eq t.spawn_id "") && not (str_eq t.source "");
  row = token_row;
  same = λ (a b : AgentTokenUsage).
      str_eq b.spawn_id a.spawn_id && same_ts b.ts a.ts && str_eq b.source a.source;
  allowed = λ (r : AgentTokenUsage). one_of valid_sources r.source;
  linked = λ (rows : List AgentTokenUsage) (r : AgentTokenUsage). has_spawn spawns r.spawn_id;
}

abbrev pub insert_agent_tokens :
    List SpawnRow
    → Answer
    → ℤ
    → AgentTokenUsage
    → List AgentTokenUsage
    → Result ℕ × List AgentTokenUsage
insert_agent_tokens spawns = insert_row (token_insertion spawns)

-- `InsertAgentVerdict`; an empty `lerneffekt_md` is NULL in the table.
abbrev pub verdict_insertion : List SpawnRow → Insertion AgentVerdict AgentVerdict
verdict_insertion spawns = record {
  ready = λ (v : AgentVerdict). not (str_eq v.spawn_id "") && not (str_eq v.verdict "");
  row = verdict_row;
  same = λ (a b : AgentVerdict).
      str_eq b.spawn_id a.spawn_id && str_eq b.verdict a.verdict && same_ts b.ts a.ts;
  allowed = λ (r : AgentVerdict). one_of valid_verdicts r.verdict;
  linked = λ (rows : List AgentVerdict) (r : AgentVerdict). has_spawn spawns r.spawn_id;
}

abbrev pub insert_agent_verdict :
    List SpawnRow → Answer → ℤ → AgentVerdict → List AgentVerdict → Result ℕ × List AgentVerdict
insert_agent_verdict spawns = insert_row (verdict_insertion spawns)

-- `InsertAgentMailboxEdge`
abbrev pub edge_insertion : List SpawnRow → Insertion AgentMailboxEdge AgentMailboxEdge
edge_insertion spawns = record {
  ready = λ (e : AgentMailboxEdge).
      not (str_eq e.from_spawn_id "" || str_eq e.to_spawn_id "") && not (str_eq e.edge_type "");
  row = edge_row;
  same = λ (a b : AgentMailboxEdge).
      str_eq b.from_spawn_id a.from_spawn_id
      && str_eq b.to_spawn_id a.to_spawn_id
      && str_eq b.edge_type a.edge_type
      && same_ts b.ts a.ts;
  allowed = λ (r : AgentMailboxEdge). one_of valid_edge_types r.edge_type;
  linked = λ (rows : List AgentMailboxEdge) (r : AgentMailboxEdge).
      has_spawn spawns r.from_spawn_id && has_spawn spawns r.to_spawn_id;
}

abbrev pub insert_agent_mailbox_edge :
    List SpawnRow
    → Answer
    → ℤ
    → AgentMailboxEdge
    → List AgentMailboxEdge
    → Result ℕ × List AgentMailboxEdge
insert_agent_mailbox_edge spawns = insert_row (edge_insertion spawns)

-- `InsertAgentEventRef`
abbrev pub event_ref_insertion :
    List SpawnRow → List EventRow → Insertion AgentEventRef AgentEventRef
event_ref_insertion spawns events = record {
  ready = λ (r : AgentEventRef).
      not (str_eq r.spawn_id "") && is_positive r.event_id && not (str_eq r.ref_type "");
  row = event_ref_row;
  same = λ (a b : AgentEventRef).
      str_eq b.spawn_id a.spawn_id
      && int_eq b.event_id a.event_id
      && str_eq b.ref_type a.ref_type
      && same_ts b.ts a.ts;
  allowed = λ (r : AgentEventRef). one_of valid_event_ref_types r.ref_type;
  linked = λ (rows : List AgentEventRef) (r : AgentEventRef).
      has_spawn spawns r.spawn_id && any (λ (e : EventRow). int_eq (pos e.id) r.event_id) events;
}

abbrev pub insert_agent_event_ref :
    List SpawnRow
    → List EventRow
    → Answer
    → ℤ
    → AgentEventRef
    → List AgentEventRef
    → Result ℕ × List AgentEventRef
insert_agent_event_ref spawns events = insert_row (event_ref_insertion spawns events)
