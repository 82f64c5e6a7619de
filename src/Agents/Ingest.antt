-- ===== src/Agents/Ingest.antt =====
-- internal/agents/handler.go: POST /agents/ingest.
pub mod Rows
pub mod Same
pub mod Clockless
pub mod Repeat
use mathlib.Core.Option
use tracelab.Prelude.{
  ℕ, suc, ◌+◌, String, Bool, true, false, Option, none, some, List, [], ◌∷◌, map, ℤ, if◌then◌else◌,
  is_positive, Time, zero_time, unix, length,
}
use tracelab.Agents.Payload.{
  SpawnPayload, TokensPayload, VerdictPayload, MailboxEdgePayload, EventRefPayload, IngestPayload,
  Refusal, validate,
}
use tracelab.Agents.Tables.{
  AgentSpawn, AgentTokenUsage, AgentVerdict, AgentMailboxEdge, AgentEventRef, SpawnRow, Answer,
  insert_agent_spawn, insert_agent_tokens, insert_agent_verdict, insert_agent_mailbox_edge,
  insert_agent_event_ref,
}
use tracelab.Store.Schema.{SessionRow, EventRow, StoreError, Result, ok, err}

-- The tables that an ingest reads and writes.
pub record AgentDb : Type 0 where
  pub sessions : List SessionRow
  pub events : List EventRow
  pub spawns : List SpawnRow
  pub tokens : List AgentTokenUsage
  pub verdicts : List AgentVerdict
  pub edges : List AgentMailboxEdge
  pub event_refs : List AgentEventRef

pub record AgentInsertResult : Type 0 where
  pub spawns : ℕ
  pub tokens : ℕ
  pub verdicts : ℕ
  pub mailbox_edges : ℕ
  pub event_refs : ℕ

-- `nsToTime`
abbrev pub ns_to_time : ℤ → Time
ns_to_time ns = if is_positive ns then unix ns else zero_time

-- The rows that `persist` makes of the payload.
abbrev pub to_spawn : SpawnPayload → AgentSpawn
to_spawn s = record {
  id = s.id;
  parent_id = s.parent_id;
  skill = s.skill;
  started_at = ns_to_time s.started_at;
  ended_at = Option.map ns_to_time s.ended_at;
  project = s.project;
  session_ref = s.session_ref;
}

abbrev pub to_tokens : String → TokensPayload → AgentTokenUsage
to_tokens source t = record {
  spawn_id = t.spawn_id;
  input_tokens = t.input_tokens;
  output_tokens = t.output_tokens;
  cache_read = t.cache_read;
  cache_write = t.cache_write;
  ts = ns_to_time t.ts;
  source = source;
}

abbrev pub to_verdict : VerdictPayload → AgentVerdict
to_verdict v = record {
  spawn_id = v.spawn_id;
  verdict = v.verdict;
  lerneffekt_md = v.lerneffekt_md;
  ts = ns_to_time v.ts;
}

abbrev pub to_edge : MailboxEdgePayload → AgentMailboxEdge
to_edge e = record {
  from_spawn_id = e.from_spawn_id;
  to_spawn_id = e.to_spawn_id;
  edge_type = e.edge_type;
  ts = ns_to_time e.ts;
}

abbrev pub to_event_ref : EventRefPayload → AgentEventRef
to_event_ref r = record {
  spawn_id = r.spawn_id;
  event_id = r.event_id;
  ref_type = r.ref_type;
  ts = ns_to_time r.ts;
}

-- One loop of `persist`: the counts add up, and the first error ends it. The table keeps what was
-- written before: there is no transaction.
abbrev pub add_count : {R : Type 0} → ℕ → Result ℕ × List R → Result ℕ × List R
add_count n (ok m, table) = (ok (n + m), table)
add_count n (err e, table) = (err e, table)

abbrev pub and_then :
    {R : Type 0} → Result ℕ × List R → (List R → Result ℕ × List R) → Result ℕ × List R
and_then (ok n, table) next = add_count n (next table)
and_then (err e, table) next = (err e, table)

abbrev pub insert_each :
    {A R : Type 0}
    → (Answer → ℤ → A → List R → Result ℕ × List R)
    → (ℕ → Answer)
    → (ℕ → ℤ)
    → ℕ
    → List A
    → List R
    → Result ℕ × List R
insert_each insert io clock n [] table = (ok 0, table)
insert_each insert io clock n (x ∷ xs) table =
    and_then (insert (io n) (clock n) x table) (insert_each insert io clock (suc n) xs)

abbrev pub spawn_list : Option SpawnPayload → List AgentSpawn
spawn_list none = []
spawn_list (some s) = to_spawn s ∷ []

-- `if err != nil { return res, err }`; the caller does not read `res` then.
abbrev pub continue :
    {R : Type 0}
    → Result ℕ × List R
    → (List R → AgentDb)
    → (ℕ → AgentDb → Result AgentInsertResult × AgentDb)
    → Result AgentInsertResult × AgentDb
continue (ok n, table) put next = next n (put table)
continue (err e, table) put next = (err e, put table)

-- `persist`: statement `n` of the request is answered by `io n` and reads the clock `clock n`.
unfoldable pub persist :
    (ℕ → Answer) → (ℕ → ℤ) → IngestPayload → AgentDb → Result AgentInsertResult × AgentDb
persist io clock p db =
    let k1 = length (spawn_list p.spawn) in
    let k2 = k1 + length p.tokens in
    let k3 = k2 + length p.verdicts in
    let k4 = k3 + length p.mailbox_edges in
    continue
      (insert_each (insert_agent_spawn db.sessions) io clock 0 (spawn_list p.spawn) db.spawns)
      (λ t. record db { spawns = t })
      (λ n1 db1.
        continue
          (insert_each (insert_agent_tokens db1.spawns) io clock k1
            (map (to_tokens p.source) p.tokens) db1.tokens)
          (λ t. record db1 { tokens = t })
          (λ n2 db2.
            continue
              (insert_each (insert_agent_verdict db2.spawns) io clock k2 (map to_verdict p.verdicts)
                db2.verdicts)
              (λ t. record db2 { verdicts = t })
              (λ n3 db3.
                continue
                  (insert_each (insert_agent_mailbox_edge db3.spawns) io clock k3
                    (map to_edge p.mailbox_edges) db3.edges)
                  (λ t. record db3 { edges = t })
                  (λ n4 db4.
                    continue
                      (insert_each (insert_agent_event_ref db4.spawns db4.events) io clock k4
                        (map to_event_ref p.event_refs) db4.event_refs)
                      (λ t. record db4 { event_refs = t })
                      (λ n5 db5. (
                        ok (record {
                          spawns = n1;
                          tokens = n2;
                          verdicts = n3;
                          mailbox_edges = n4;
                          event_refs = n5;
                        }),
                        db5,
                      ))))))

-- The answer to the request, whose body has been decoded.
pub data Reply : Type 0 where
  bad_request : Refusal → Reply
  internal_error : Reply
  ingested : AgentInsertResult → Reply

abbrev reply : Result AgentInsertResult × AgentDb → Reply × AgentDb
reply (ok res, db) = (ingested res, db)
reply (err e, db) = (internal_error, db)

abbrev answer_to : Option Refusal → Result AgentInsertResult × AgentDb → AgentDb → Reply × AgentDb
answer_to (some e) r db = (bad_request e, db)
answer_to none r db = reply r

-- `Ingest`
unfoldable pub ingest : (ℕ → Answer) → (ℕ → ℤ) → IngestPayload → AgentDb → Reply × AgentDb
ingest io clock p db = answer_to (validate p) (persist io clock p db) db
