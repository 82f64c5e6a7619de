-- ===== src/Agents/Ingest/Repeat.antt =====
-- internal/agents/handler.go: a request that was persisted, sent again.
use tracelab.Prelude.{ℕ, ◌+◌, ◌≡◌, refl, none, List, map, ℤ, pos, All, arith, length}
use tracelab.Agents.Ingest.{
  AgentDb, AgentInsertResult, insert_each, continue, persist, spawn_list, to_tokens, to_verdict,
  to_edge, to_event_ref,
}
use tracelab.Agents.Ingest.Rows.{each-repeat}
use tracelab.Agents.Ingest.Same.{spawn_same, token_same, verdict_same, edge_same, event_ref_same}
use tracelab.Agents.Payload.{IngestPayload, validate}
use tracelab.Agents.Tables.{
  AgentSpawn, AgentTokenUsage, AgentVerdict, AgentMailboxEdge, AgentEventRef, SpawnRow, Answer,
  counted, spawn_row, token_row, spawn_insertion, token_insertion, verdict_insertion,
  edge_insertion, event_ref_insertion, verdict_row, edge_row, event_ref_row, insert_agent_spawn,
  insert_agent_tokens, insert_agent_verdict, insert_agent_mailbox_edge, insert_agent_event_ref,
}
use tracelab.Store.Schema.{SessionRow, EventRow, Result, ok, err}
use tracelab.Agents.Ingest.Clockless.{validate-IsClockless}

abbrev nothing : AgentInsertResult
nothing = record { spawns = 0; tokens = 0; verdicts = 0; mailbox_edges = 0; event_refs = 0 }

-- What one step asks of the rest, for the request to find nothing to do when it comes `again`.
after_step :
    {R : Type 0} (again : AgentDb → Result AgentInsertResult × AgentDb) (res : AgentInsertResult)
    (r : Result ℕ × List R) (put : List R → AgentDb)
    (next : ℕ → AgentDb → Result AgentInsertResult × AgentDb)
    → (continue r put next).0 ≡ ok res
    → ((n : ℕ)
        → r.0 ≡ ok n
        → (next n (put r.1)).0 ≡ ok res
        → again (next n (put r.1)).1 ≡ (ok nothing, (next n (put r.1)).1))
    → again (continue r put next).1 ≡ (ok nothing, (continue r put next).1)
after_step again res (ok n, t) put next h k = k n refl h
after_step again res (err e, t) put next h k = ground (arith, h)

module _ (io : ℕ → Answer) (clock clock2 : ℕ → ℤ) (k j : ℕ) where
  spawns-repeat :
      (sessions : List SessionRow) (xs : List AgentSpawn) (t : List SpawnRow) (n : ℕ)
      → All (λ (x : AgentSpawn). (now : ℤ) → spawn_row now x ≡ spawn_row (pos 0) x) xs
      → (insert_each (insert_agent_spawn sessions) io clock k xs t).0 ≡ ok n
      → insert_each
          (insert_agent_spawn sessions)
          (λ i. counted)
          clock2
          j
          xs
          (insert_each (insert_agent_spawn sessions) io clock k xs t).1
        ≡ (ok 0, (insert_each (insert_agent_spawn sessions) io clock k xs t).1)
  spawns-repeat sessions xs t n =
      each-repeat (spawn_insertion sessions) io clock clock2 k j xs t n spawn_same

  tokens-repeat :
      (spawns : List SpawnRow) (xs : List AgentTokenUsage) (t : List AgentTokenUsage) (n : ℕ)
      → All (λ (x : AgentTokenUsage). (now : ℤ) → token_row now x ≡ token_row (pos 0) x) xs
      → (insert_each (insert_agent_tokens spawns) io clock k xs t).0 ≡ ok n
      → insert_each
          (insert_agent_tokens spawns)
          (λ i. counted)
          clock2
          j
          xs
          (insert_each (insert_agent_tokens spawns) io clock k xs t).1
        ≡ (ok 0, (insert_each (insert_agent_tokens spawns) io clock k xs t).1)
  tokens-repeat spawns xs t n =
      each-repeat (token_insertion spawns) io clock clock2 k j xs t n token_same

  verdicts-repeat :
      (spawns : List SpawnRow) (xs : List AgentVerdict) (t : List AgentVerdict) (n : ℕ)
      → All (λ (x : AgentVerdict). (now : ℤ) → verdict_row now x ≡ verdict_row (pos 0) x) xs
      → (insert_each (insert_agent_verdict spawns) io clock k xs t).0 ≡ ok n
      → insert_each
          (insert_agent_verdict spawns)
          (λ i. counted)
          clock2
          j
          xs
          (insert_each (insert_agent_verdict spawns) io clock k xs t).1
        ≡ (ok 0, (insert_each (insert_agent_verdict spawns) io clock k xs t).1)
  verdicts-repeat spawns xs t n =
      each-repeat (verdict_insertion spawns) io clock clock2 k j xs t n verdict_same

  edges-repeat :
      (spawns : List SpawnRow) (xs : List AgentMailboxEdge) (t : List AgentMailboxEdge) (n : ℕ)
      → All (λ (x : AgentMailboxEdge). (now : ℤ) → edge_row now x ≡ edge_row (pos 0) x) xs
      → (insert_each (insert_agent_mailbox_edge spawns) io clock k xs t).0 ≡ ok n
      → insert_each
          (insert_agent_mailbox_edge spawns)
          (λ i. counted)
          clock2
          j
          xs
          (insert_each (insert_agent_mailbox_edge spawns) io clock k xs t).1
        ≡ (ok 0, (insert_each (insert_agent_mailbox_edge spawns) io clock k xs t).1)
  edges-repeat spawns xs t n =
      each-repeat (edge_insertion spawns) io clock clock2 k j xs t n edge_same

  event_refs-repeat :
      (spawns : List SpawnRow) (events : List EventRow) (xs : List AgentEventRef)
      (t : List AgentEventRef) (n : ℕ)
      → All (λ (x : AgentEventRef). (now : ℤ) → event_ref_row now x ≡ event_ref_row (pos 0) x) xs
      → (insert_each (insert_agent_event_ref spawns events) io clock k xs t).0 ≡ ok n
      → insert_each
          (insert_agent_event_ref spawns events)
          (λ i. counted)
          clock2
          j
          xs
          (insert_each (insert_agent_event_ref spawns events) io clock k xs t).1
        ≡ (ok 0, (insert_each (insert_agent_event_ref spawns events) io clock k xs t).1)
  event_refs-repeat spawns events xs t n =
      each-repeat (event_ref_insertion spawns events) io clock clock2 k j xs t n event_ref_same

-- A payload that passes `validate` and was persisted in full, sent again at any time to an engine
-- that answers every statement, is counted as nothing new and leaves every table as it is.
pub persist-repeat :
    (io : ℕ → Answer) (clock clock2 : ℕ → ℤ) (p : IngestPayload) (db : AgentDb)
    (res : AgentInsertResult)
    → validate p ≡ none
    → (persist io clock p db).0 ≡ ok res
    → persist (λ n. counted) clock2 p (persist io clock p db).1
      ≡ (ok nothing, (persist io clock p db).1)
unfolding persist
persist-repeat io clock clock2 p db res valid h =
    let timed = validate-IsClockless p valid in
    let again = persist (λ n. counted) clock2 p in
    let k1 = length (spawn_list p.spawn) in
    let k2 = k1 + length p.tokens in
    let k3 = k2 + length p.verdicts in
    let k4 = k3 + length p.mailbox_edges in
    let s =
      insert_each (insert_agent_spawn db.sessions) io clock 0 (spawn_list p.spawn) db.spawns in
    let t =
      insert_each (insert_agent_tokens s.1) io clock k1 (map (to_tokens p.source) p.tokens)
        db.tokens in
    let v =
      insert_each (insert_agent_verdict s.1) io clock k2 (map to_verdict p.verdicts) db.verdicts in
    let e =
      insert_each (insert_agent_mailbox_edge s.1) io clock k3 (map to_edge p.mailbox_edges)
        db.edges in
    let r =
      insert_each (insert_agent_event_ref s.1 db.events) io clock k4 (map to_event_ref p.event_refs)
        db.event_refs in
    let last : AgentDb = record db {
      spawns = s.1;
      tokens = t.1;
      verdicts = v.1;
      edges = e.1;
      event_refs = r.1;
    } in
    after_step again res s _ _ h (λ n1 e1 h1. after_step again res t _ _ h1 (λ n2 e2 h2.
      after_step again res v _ _ h2 (λ n3 e3 h3. after_step again res e _ _ h3 (λ n4 e4 h4.
        after_step again res r _ _ h4 (λ n5 e5 h5.
          let quiet : again last ≡ (ok nothing, last) =
            rw
              (
                spawns-repeat io clock clock2 0 0 _ _ _ n1 timed.spawns e1,
                tokens-repeat io clock clock2 k1 k1 _ _ _ n2 timed.tokens e2,
                verdicts-repeat io clock clock2 k2 k2 _ _ _ n3 timed.verdicts e3,
                edges-repeat io clock clock2 k3 k3 _ _ _ n4 timed.edges e4,
                event_refs-repeat io clock clock2 k4 k4 _ _ _ _ n5 timed.event_refs e5,
              )
              refl in
          quiet)))))
