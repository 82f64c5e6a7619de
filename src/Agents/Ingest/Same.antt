-- ===== src/Agents/Ingest/Same.antt =====
-- internal/store/migrations: a row of an agent table is the same as itself under its UNIQUE index.
use tracelab.Agents.Tables.{
  AgentTokenUsage, AgentVerdict, AgentMailboxEdge, AgentEventRef, SpawnRow, spawn_insertion,
  token_insertion, verdict_insertion, edge_insertion, event_ref_insertion,
}
use tracelab.Prelude.{◌≡◌, refl, true, [], ℤ, pos, negsuc, int_eq, unix_nano, str_eq_refl, arith}

int_eq_refl : (a : ℤ) → int_eq a a ≡ true
int_eq_refl (pos a) = ground arith
int_eq_refl (negsuc a) = ground arith

pub spawn_same : (r : SpawnRow) → (spawn_insertion []).same r r ≡ true
spawn_same r = str_eq_refl r.id

pub token_same : (r : AgentTokenUsage) → (token_insertion []).same r r ≡ true
token_same r = rw (str_eq_refl r.spawn_id, int_eq_refl (unix_nano r.ts), str_eq_refl r.source) refl

pub verdict_same : (r : AgentVerdict) → (verdict_insertion []).same r r ≡ true
verdict_same r =
    rw (str_eq_refl r.spawn_id, str_eq_refl r.verdict, int_eq_refl (unix_nano r.ts)) refl

pub edge_same : (r : AgentMailboxEdge) → (edge_insertion []).same r r ≡ true
edge_same r =
    rw
      (
        str_eq_refl r.from_spawn_id,
        str_eq_refl r.to_spawn_id,
        str_eq_refl r.edge_type,
        int_eq_refl (unix_nano r.ts),
      )
      refl

pub event_ref_same : (r : AgentEventRef) → (event_ref_insertion [] []).same r r ≡ true
event_ref_same r =
    rw
      (
        str_eq_refl r.spawn_id,
        int_eq_refl r.event_id,
        str_eq_refl r.ref_type,
        int_eq_refl (unix_nano r.ts),
      )
      refl
