-- ===== src/Agents/Transcript/Linked/Stored.antt =====
-- internal/agents/transcript.go: the rows that the events of a line leave in tables that answer.
use tracelab.Agents.Ingest.{AgentDb}
use tracelab.Agents.Ingest.Same.{token_same, verdict_same, edge_same}
use tracelab.Agents.Tables.{
  AgentTokenUsage, AgentVerdict, AgentMailboxEdge, SpawnRow, counted, has_spawn, stamp,
  spawn_insertion, token_insertion, verdict_insertion, edge_insertion, token_row, verdict_row,
  edge_row,
}
use tracelab.Agents.Transcript.{Decoder, TranscriptEvent, spawned, used, judged, linked}
use tracelab.Agents.Transcript.Linked.{brings, Fits, IsLinked}
use tracelab.Agents.Transcript.Linked.Persisted.{
  Present, decodes, insert_row-any, insert_row-same, persist_event-Present, process_line-log,
}
use tracelab.Agents.Transcript.Linked.Records.{record_events-IsLinked}
use tracelab.Agents.Transcript.Parse.{record_events, parse_transcript_line}
use tracelab.Agents.Transcript.Persist.{
  World, decode_failed, persist_event, persist_one, persist_events, process_line,
}
use tracelab.Prelude.{
  ℕ, String, ◌≡◌, refl, Bool, true, ◌&&◌, ◌||◌, Option, none, some, List, [], ◌∷◌, ℤ, Time,
  zero_time, unix, is_zero, unix_nano, int_eq, str_eq, if◌then◌else◌, any, All, Bool-cases, inl,
  inr, arith, Bytes, str_eq_refl, Option-cases,
}

-- The time of a row against that of its event; for the zero time the row has that of the clock.
abbrev pub at_time : Time → Time → Bool
at_time a b = is_zero a || int_eq (unix_nano b) (unix_nano a)

abbrev pub has_tokens : AgentTokenUsage → AgentTokenUsage → Bool
has_tokens t r = str_eq r.spawn_id t.spawn_id && at_time t.ts r.ts && str_eq r.source t.source

abbrev pub has_verdict : AgentVerdict → AgentVerdict → Bool
has_verdict v r = str_eq r.spawn_id v.spawn_id && str_eq r.verdict v.verdict && at_time v.ts r.ts

abbrev pub has_edge : AgentMailboxEdge → AgentMailboxEdge → Bool
has_edge e r =
    str_eq r.from_spawn_id e.from_spawn_id
    && str_eq r.to_spawn_id e.to_spawn_id
    && str_eq r.edge_type e.edge_type
    && at_time e.ts r.ts

-- The table of an event has a row with its key.
abbrev pub is_stored : AgentDb → TranscriptEvent → Bool
is_stored db (spawned s) = has_spawn db.spawns s.id
is_stored db (used t) = any (has_tokens t) db.tokens
is_stored db (judged v) = any (has_verdict v) db.verdicts
is_stored db (linked e) = any (has_edge e) db.edges

any-imply :
    {A : Type 0} (p q : A → Bool) (xs : List A)
    → ((x : A) → p x ≡ true → q x ≡ true)
    → any p xs ≡ true
    → any q xs ≡ true
any-imply p q [] i h = h
any-imply p q (x ∷ xs) i h = elim (Bool-cases (p x)) [
  | inl e ↦ rw (i x e) refl
  | inr e ↦ let k : any p xs ≡ true = rw e at h in ground (arith, any-imply p q xs i k)
]

stamp-at_time :
    (now : ℤ) (a b : Time) → int_eq (unix_nano b) (stamp now a) ≡ true → at_time a b ≡ true
stamp-at_time now zero_time b h = refl
stamp-at_time now (unix x) b h = h

module _ (now : ℤ) where
  -- What stands for an event in its table stays.
  persist_event-keeps :
      (e f : TranscriptEvent) (db : AgentDb)
      → is_stored db f ≡ true
      → is_stored (persist_event counted now e db).1 f ≡ true
  persist_event-keeps (spawned s) (spawned x) db h =
      insert_row-any (spawn_insertion db.sessions) now s db.spawns
        (λ (r : SpawnRow). str_eq r.id x.id) h
  persist_event-keeps (spawned s) (used x) db h = h
  persist_event-keeps (spawned s) (judged x) db h = h
  persist_event-keeps (spawned s) (linked x) db h = h
  persist_event-keeps (used t) (spawned x) db h = h
  persist_event-keeps (used t) (used x) db h =
      insert_row-any (token_insertion db.spawns) now t db.tokens (has_tokens x) h
  persist_event-keeps (used t) (judged x) db h = h
  persist_event-keeps (used t) (linked x) db h = h
  persist_event-keeps (judged v) (spawned x) db h = h
  persist_event-keeps (judged v) (used x) db h = h
  persist_event-keeps (judged v) (judged x) db h =
      insert_row-any (verdict_insertion db.spawns) now v db.verdicts (has_verdict x) h
  persist_event-keeps (judged v) (linked x) db h = h
  persist_event-keeps (linked e) (spawned x) db h = h
  persist_event-keeps (linked e) (used x) db h = h
  persist_event-keeps (linked e) (judged x) db h = h
  persist_event-keeps (linked e) (linked x) db h =
      insert_row-any (edge_insertion db.spawns) now e db.edges (has_edge x) h

  persist_event-is_stored :
      (e : TranscriptEvent) (known : List String) (db : AgentDb)
      → Fits known e
      → Present known db
      → is_stored (persist_event counted now e db).1 e ≡ true
  persist_event-is_stored (spawned s) known db f p =
      persist_event-Present now (spawned s) known db f p s.id (rw (str_eq_refl s.id) refl)
  persist_event-is_stored (used t) known db f p =
      any-imply ((token_insertion db.spawns).same (token_row now t)) (has_tokens t) _
        (λ r h.
          let right : int_eq (unix_nano r.ts) (stamp now t.ts) ≡ true = ground (arith, h) in
          ground (arith, h, stamp-at_time now t.ts r.ts right))
        (insert_row-same (token_insertion db.spawns) now t db.tokens (rw (f.id, f.source) refl)
          f.allowed (p t.spawn_id f.spawn) (token_same (token_row now t)))
  persist_event-is_stored (judged v) known db f p =
      any-imply ((verdict_insertion db.spawns).same (verdict_row now v)) (has_verdict v) _
        (λ r h.
          let right : int_eq (unix_nano r.ts) (stamp now v.ts) ≡ true = ground (arith, h) in
          ground (arith, h, stamp-at_time now v.ts r.ts right))
        (insert_row-same (verdict_insertion db.spawns) now v db.verdicts (rw (f.id, f.verdict) refl)
          f.allowed (p v.spawn_id f.spawn) (verdict_same (verdict_row now v)))
  persist_event-is_stored (linked e) known db f p =
      any-imply ((edge_insertion db.spawns).same (edge_row now e)) (has_edge e) _
        (λ r h.
          let right : int_eq (unix_nano r.ts) (stamp now e.ts) ≡ true = ground (arith, h) in
          ground (arith, h, stamp-at_time now e.ts r.ts right))
        (insert_row-same (edge_insertion db.spawns) now e db.edges
          (rw (f.from_id, f.to_id, f.kind) refl) f.allowed
          (rw (p e.from_spawn_id f.from, p e.to_spawn_id f.to) refl) (edge_same (edge_row now e)))

abbrev pub or_none : Option (List TranscriptEvent) → List TranscriptEvent
or_none none = []
or_none (some es) = es

module _ (d : Decoder) (clock : ℕ → ℤ) (path : String) where
  persist_events-keeps :
      (es : List TranscriptEvent) (f : TranscriptEvent) (w : World)
      → is_stored w.db f ≡ true
      → is_stored (persist_events d (λ n. counted) clock path es w).db f ≡ true
  persist_events-keeps [] f w h = h
  persist_events-keeps (e ∷ es) f w h =
      persist_events-keeps es f (persist_one d (λ n. counted) clock path e w)
        (persist_event-keeps (clock w.calls) e f w.db h)

  persist_events-is_stored :
      (es : List TranscriptEvent) (known : List String) (w : World)
      → IsLinked known es
      → Present known w.db
      → All (λ e. is_stored (persist_events d (λ n. counted) clock path es w).db e ≡ true) es
  persist_events-is_stored [] known w l p = tt
  persist_events-is_stored (e ∷ es) known w l p =
      let now = clock w.calls in
      let next = persist_one d (λ n. counted) clock path e w in
      (
        persist_events-keeps es e next (persist_event-is_stored now e known w.db l.0 p),
        persist_events-is_stored es (brings e known) next l.1
            (persist_event-Present now e known w.db l.0 p),
      )

  events-is_stored :
      (line : Bytes) (w : World)
      → All
          (λ e. is_stored (process_line d (λ n. counted) clock path line w).db e ≡ true)
          (or_none (parse_transcript_line d line))
  unfolding process_line parse_transcript_line
  events-is_stored [] w = tt
  events-is_stored (c ∷ line) w = elim (Option-cases (d.unmarshal (c ∷ line))) [
    | inl e ↦ rw e tt
    | inr e ↦ rw e.1 (
        persist_events-is_stored (record_events d e.0) [] w (record_events-IsLinked d e.0)
          (λ id h. absurd (ground (arith, h))))
  ]

  -- If the engine answers every statement, each event of a line is in its table afterwards: a spawn under its
  -- id, and tokens, a verdict or an edge in a row with their key, the ids of their spawns, their source,
  -- verdict or type, and their time unless that is the zero time. No event fails: nothing is logged for a
  -- line that decodes. A line that does not is logged once and brings no event; an empty one is neither
  -- logged nor brings any.
  pub process_line-is_stored :
      (line : Bytes) (w : World)
      → All
          (λ e. is_stored (process_line d (λ n. counted) clock path line w).db e ≡ true)
          (or_none (parse_transcript_line d line))
        × ((process_line d (λ n. counted) clock path line w).log
            ≡ (if decodes d line then w.log else decode_failed path ∷ w.log))
  process_line-is_stored line w = (events-is_stored line w, process_line-log d clock path line w)
