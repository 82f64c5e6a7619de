-- ===== src/Agents/Ingest/Clockless.antt =====
-- internal/agents/payload.go: the payloads that `validate` accepts, and the clock.
use tracelab.Prelude.{
  ℕ, suc, String, ◌≡◌, refl, ap, true, Option, none, some, List, [], ◌∷◌, map, ℤ, pos, All,
  is_positive, arith, unix,
}
use tracelab.Agents.Ingest.{
  spawn_list, to_spawn, to_tokens, to_verdict, to_edge, to_event_ref, ns_to_time,
}
use tracelab.Agents.Payload.{
  SpawnPayload, TokensPayload, VerdictPayload, MailboxEdgePayload, EventRefPayload, IngestPayload,
  Refusal, validate, check_spawn, check_rows, check_token, check_verdict, check_edge,
  check_event_ref, check_envelope, or_else, refused,
}
use tracelab.Agents.Tables.{
  AgentSpawn, AgentTokenUsage, AgentVerdict, AgentMailboxEdge, AgentEventRef, stamp, spawn_row,
  token_row, verdict_row, edge_row, event_ref_row,
}

stamp-ns_to_time :
    (now ts : ℤ) → is_positive ts ≡ true → stamp now (ns_to_time ts) ≡ stamp (pos 0) (ns_to_time ts)
stamp-ns_to_time now ts h = rw h refl

or_else-none : (a b : Option Refusal) → or_else a b ≡ none → (a ≡ none) × (b ≡ none)
or_else-none none b h = (refl, h)
or_else-none (some e) b h = ground (arith, h)

refused-none :
    (name : String) (i : ℕ) (a : Option String) (b : Option Refusal)
    → refused name i a b ≡ none
    → (a ≡ none) × (b ≡ none)
refused-none name i none b h = (refl, h)
refused-none name i (some e) b h = ground (arith, h)

-- A list that passes its checks has a positive time in every row, if the check asks for it.
check_rows-All :
    {A B : Type 0} (P : B → Type 0) (f : A → B) (check : A → Option String) (name : String) (i : ℕ)
    (xs : List A)
    → ((x : A) → check x ≡ none → P (f x))
    → check_rows check name i xs ≡ none
    → All P (map f xs)
check_rows-All P f check name i [] k h = tt
check_rows-All P f check name i (x ∷ xs) k h =
    let g = refused-none name i (check x) (check_rows check name (suc i) xs) h in
    (k x g.0, check_rows-All P f check name (suc i) xs k g.1)

token-timed : (t : TokensPayload) → check_token t ≡ none → is_positive t.ts ≡ true
token-timed t h = ground (arith, h)

verdict-timed : (v : VerdictPayload) → check_verdict v ≡ none → is_positive v.ts ≡ true
verdict-timed v h = ground (arith, h)

edge-timed : (e : MailboxEdgePayload) → check_edge e ≡ none → is_positive e.ts ≡ true
edge-timed e h = ground (arith, h)

event_ref-timed : (r : EventRefPayload) → check_event_ref r ≡ none → is_positive r.ts ≡ true
event_ref-timed r h = ground (arith, h)

spawn-timed : (s : SpawnPayload) → check_spawn (some s) ≡ none → is_positive s.started_at ≡ true
spawn-timed s h = ground (arith, h)

spawn_list-timed :
    (s : Option SpawnPayload)
    → check_spawn s ≡ none
    → All (λ (x : AgentSpawn). (now : ℤ) → spawn_row now x ≡ spawn_row (pos 0) x) (spawn_list s)
spawn_list-timed none h = tt
spawn_list-timed (some s) h = (
  λ now.
      ap (λ u. record (spawn_row (pos 0) (to_spawn s)) { started_at = u })
        (stamp-ns_to_time now s.started_at (spawn-timed s h)),
  tt,
)

-- A payload that passes `validate` is written without the clock.
pub record IsClockless (p : IngestPayload) : Type 0 where
  pub spawns :
      All
        (λ (x : AgentSpawn). (now : ℤ) → spawn_row now x ≡ spawn_row (pos 0) x)
        (spawn_list p.spawn)
  pub tokens :
      All
        (λ (x : AgentTokenUsage). (now : ℤ) → token_row now x ≡ token_row (pos 0) x)
        (map (to_tokens p.source) p.tokens)
  pub verdicts :
      All
        (λ (x : AgentVerdict). (now : ℤ) → verdict_row now x ≡ verdict_row (pos 0) x)
        (map to_verdict p.verdicts)
  pub edges :
      All
        (λ (x : AgentMailboxEdge). (now : ℤ) → edge_row now x ≡ edge_row (pos 0) x)
        (map to_edge p.mailbox_edges)
  pub event_refs :
      All
        (λ (x : AgentEventRef). (now : ℤ) → event_ref_row now x ≡ event_ref_row (pos 0) x)
        (map to_event_ref p.event_refs)

pub validate-IsClockless : (p : IngestPayload) → validate p ≡ none → IsClockless p
unfolding validate
validate-IsClockless p h =
    let a = or_else-none (check_envelope p) _ h in
    let b = or_else-none (check_spawn p.spawn) _ a.1 in
    let c = or_else-none (check_rows check_token "tokens" 0 p.tokens) _ b.1 in
    let d = or_else-none (check_rows check_verdict "verdicts" 0 p.verdicts) _ c.1 in
    let e = or_else-none (check_rows check_edge "mailbox_edges" 0 p.mailbox_edges) _ d.1 in
    record {
      spawns = spawn_list-timed p.spawn b.0;
      tokens =
          check_rows-All _ (to_tokens p.source) check_token "tokens" 0 p.tokens
            (λ t k now.
              ap (λ u. record (to_tokens p.source t) { ts = unix u })
                (stamp-ns_to_time now t.ts (token-timed t k)))
            c.0;
      verdicts =
          check_rows-All _ to_verdict check_verdict "verdicts" 0 p.verdicts
            (λ v k now.
              ap (λ u. record (to_verdict v) { ts = unix u })
                (stamp-ns_to_time now v.ts (verdict-timed v k)))
            d.0;
      edges =
          check_rows-All _ to_edge check_edge "mailbox_edges" 0 p.mailbox_edges
            (λ x k now.
              ap (λ u. record (to_edge x) { ts = unix u })
                (stamp-ns_to_time now x.ts (edge-timed x k)))
            e.0;
      event_refs =
          check_rows-All _ to_event_ref check_event_ref "event_refs" 0 p.event_refs
            (λ r k now.
              ap (λ u. record (to_event_ref r) { ts = unix u })
                (stamp-ns_to_time now r.ts (event_ref-timed r k)))
            e.1;
    }
