-- ===== src/Agents/Payload.antt =====
-- internal/agents/payload.go: the payload of POST /agents/ingest and its validation.
use tracelab.Prelude.{
  ℕ, suc, String, Bool, true, false, not, ◌&&◌, ◌||◌, Option, none, some, List, [], ◌∷◌, ℤ, str_eq,
  if◌then◌else◌, is_positive,
}

-- `SpawnPayload`; an absent string is empty, as in the source.
pub record SpawnPayload : Type 0 where
  pub id : String
  pub parent_id : String
  pub skill : String
  pub started_at : ℤ
  pub ended_at : Option ℤ
  pub project : String
  pub session_ref : String

pub record TokensPayload : Type 0 where
  pub spawn_id : String
  pub input_tokens : ℤ
  pub output_tokens : ℤ
  pub cache_read : ℤ
  pub cache_write : ℤ
  pub ts : ℤ

pub record VerdictPayload : Type 0 where
  pub spawn_id : String
  pub verdict : String
  pub lerneffekt_md : String
  pub ts : ℤ

pub record MailboxEdgePayload : Type 0 where
  pub from_spawn_id : String
  pub to_spawn_id : String
  pub edge_type : String
  pub ts : ℤ

pub record EventRefPayload : Type 0 where
  pub spawn_id : String
  pub event_id : ℤ
  pub ref_type : String
  pub ts : ℤ

pub record IngestPayload : Type 0 where
  pub source : String
  pub spawn : Option SpawnPayload
  pub tokens : List TokensPayload
  pub verdicts : List VerdictPayload
  pub mailbox_edges : List MailboxEdgePayload
  pub event_refs : List EventRefPayload

-- Membership in one of the four allow-lists.
abbrev pub one_of : List String → String → Bool
one_of [] s = false
one_of (w ∷ ws) s = str_eq s w || one_of ws s

abbrev pub valid_sources : List String
valid_sources = "sdk-hook" ∷ "transcript" ∷ "mcp-push" ∷ []

abbrev pub valid_verdicts : List String
valid_verdicts = "freigabe" ∷ "auflagen" ∷ "rueckgabe" ∷ "eskalation" ∷ "none" ∷ []

abbrev pub valid_edge_types : List String
valid_edge_types = "spawn" ∷ "return" ∷ "escalate" ∷ "delegate" ∷ []

abbrev pub valid_event_ref_types : List String
valid_event_ref_types = "observed" ∷ "context" ∷ "caused-by" ∷ []

-- The message of an error: about the envelope, or about the row at an index of one of the lists.
pub data Refusal : Type 0 where
  envelope : String → Refusal
  at_row : String → ℕ → String → Refusal

-- The checks on one row of each kind, in the order of the source.
abbrev pub check_spawn : Option SpawnPayload → Option Refusal
check_spawn none = none
check_spawn (some s) =
    if str_eq s.id ""
    then some (envelope "spawn.id required")
    else if str_eq s.skill ""
    then some (envelope "spawn.skill required")
    else if str_eq s.project ""
    then some (envelope "spawn.project required")
    else if is_positive s.started_at
    then none
    else some (envelope "spawn.started_at required (unix-nano > 0)")

abbrev pub check_token : TokensPayload → Option String
check_token t =
    if str_eq t.spawn_id ""
    then some "spawn_id required"
    else if is_positive t.ts
    then none
    else some "ts required (unix-nano > 0)"

abbrev pub check_verdict : VerdictPayload → Option String
check_verdict v =
    if str_eq v.spawn_id ""
    then some "spawn_id required"
    else if not (one_of valid_verdicts v.verdict)
    then some "verdict invalid"
    else if is_positive v.ts
    then none
    else some "ts required (unix-nano > 0)"

abbrev pub check_edge : MailboxEdgePayload → Option String
check_edge e =
    if str_eq e.from_spawn_id "" || str_eq e.to_spawn_id ""
    then some "{from,to}_spawn_id required"
    else if not (one_of valid_edge_types e.edge_type)
    then some "edge_type invalid"
    else if is_positive e.ts
    then none
    else some "ts required (unix-nano > 0)"

abbrev pub check_event_ref : EventRefPayload → Option String
check_event_ref r =
    if str_eq r.spawn_id ""
    then some "spawn_id required"
    else if not (is_positive r.event_id)
    then some "event_id required (positive integer FK to events.id)"
    else if not (one_of valid_event_ref_types r.ref_type)
    then some "ref_type invalid"
    else if is_positive r.ts
    then none
    else some "ts required (unix-nano > 0)"

-- The loop over a list of rows, which ends at the first error.
abbrev pub refused : String → ℕ → Option String → Option Refusal → Option Refusal
refused name i none rest = rest
refused name i (some message) rest = some (at_row name i message)

abbrev pub check_rows : {A : Type 0} → (A → Option String) → String → ℕ → List A → Option Refusal
check_rows check name i [] = none
check_rows check name i (x ∷ xs) = refused name i (check x) (check_rows check name (suc i) xs)

abbrev pub or_else : Option Refusal → Option Refusal → Option Refusal
or_else none r = r
or_else (some e) r = some e

abbrev is_none : {A : Type 0} → Option A → Bool
is_none none = true
is_none (some x) = false

abbrev is_empty : {A : Type 0} → List A → Bool
is_empty [] = true
is_empty (x ∷ xs) = false

abbrev pub check_envelope : IngestPayload → Option Refusal
check_envelope p =
    if str_eq p.source ""
    then some (envelope "source required")
    else if not (one_of valid_sources p.source)
    then some (envelope "unknown source")
    else if is_none p.spawn
        && is_empty p.tokens
        && is_empty p.verdicts
        && is_empty p.mailbox_edges
        && is_empty p.event_refs
    then some (envelope "payload is empty")
    else none

-- `validate`
unfoldable pub validate : IngestPayload → Option Refusal
validate p = or_else (check_envelope p) (
    or_else (check_spawn p.spawn) (
      or_else (check_rows check_token "tokens" 0 p.tokens) (
        or_else (check_rows check_verdict "verdicts" 0 p.verdicts) (
          or_else (check_rows check_edge "mailbox_edges" 0 p.mailbox_edges)
            (check_rows check_event_ref "event_refs" 0 p.event_refs)))))
