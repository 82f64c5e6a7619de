-- ===== src/Agents/Transcript/Linked/Persisted.antt =====
-- internal/agents/transcript.go: the events of a line, written to tables that answer.
use tracelab.Agents.Ingest.{AgentDb}
use tracelab.Agents.Ingest.Rows.{insert-table, any-last}
use tracelab.Agents.Tables.{
  AgentSpawn, Insertion, SpawnRow, counted, has_spawn, insert_row, spawn_insertion, token_insertion,
  verdict_insertion, edge_insertion, spawn_row,
}
use tracelab.Agents.Transcript.{Decoder, TranscriptEvent, spawned, used, judged, linked}
use tracelab.Agents.Transcript.Parse.{record_events, parse_transcript_line}
use tracelab.Agents.Transcript.Linked.{brings, knows, Fits, FitsSpawn, IsLinked}
use tracelab.Agents.Transcript.Linked.Records.{record_events-IsLinked}
use tracelab.Agents.Transcript.Persist.{
  World, decode_failed, persist_event, persist_one, persist_events, process_line,
}
use tracelab.Prelude.{
  ℕ, String, ◌≡◌, refl, ◌∙◌, Bool, true, false, not, ◌||◌, Option, none, some, List, [], ◌∷◌, ℤ,
  str_eq, if◌then◌else◌, any, Bool-cases, inl, inr, arith, eq_iff, Bytes, pos, any-left,
  str_eq_refl, subst, Option-cases,
}
use tracelab.Store.Schema.{ok}

-- An insert that the engine answers, whose arguments are good and whose foreign keys hold.
insert_row-ok :
    {A R : Type 0} (ins : Insertion A R) (now : ℤ) (x : A) (table : List R)
    → ins.ready x ≡ true
    → ins.linked table (ins.row now x) ≡ true
    → (n : ℕ) × ((insert_row ins counted now x table).0 ≡ ok n)
insert_row-ok ins now x table r l =
    elim (Bool-cases (not (ins.allowed (ins.row now x)) || any (ins.same (ins.row now x)) table)) [
      | inl e ↦ (0, rw (r, e) refl)
      | inr e ↦ (1, rw (r, e, l) refl)
    ]

-- It leaves the rows that were there, and a row like its own.
pub insert_row-any :
    {A R : Type 0} (ins : Insertion A R) (now : ℤ) (x : A) (table : List R) (p : R → Bool)
    → any p table ≡ true
    → any p (insert_row ins counted now x table).1 ≡ true
insert_row-any ins now x table p h = elim (insert-table ins counted now x table) [
  | inl e ↦ rw e h
  | inr e ↦ rw e (any-left p table (ins.row now x ∷ []) h)
]

pub insert_row-same :
    {A R : Type 0} (ins : Insertion A R) (now : ℤ) (x : A) (table : List R)
    → ins.ready x ≡ true
    → ins.allowed (ins.row now x) ≡ true
    → ins.linked table (ins.row now x) ≡ true
    → ins.same (ins.row now x) (ins.row now x) ≡ true
    → any (ins.same (ins.row now x)) (insert_row ins counted now x table).1 ≡ true
insert_row-same ins now x table r a l s = elim (Bool-cases (any (ins.same (ins.row now x)) table)) [
  | inl e ↦ rw (r, a, e) e
  | inr e ↦ rw (r, a, e, l) (any-last (ins.same (ins.row now x)) table (ins.row now x) s)
]

-- The spawns of the list are in the table.
abbrev pub Present : List String → AgentDb → Type 0
Present known db = (id : String) → knows known id ≡ true → has_spawn db.spawns id ≡ true

abbrev is_some : {A : Type 0} → Option A → Bool
is_some none = false
is_some (some a) = true

-- A line that the JSON decoder accepts, or that is empty.
abbrev pub decodes : Decoder → Bytes → Bool
decodes d [] = true
decodes d (c ∷ line) = is_some (d.unmarshal (c ∷ line))

spawn-linked :
    (s : AgentSpawn) (known : List String) (db : AgentDb)
    → FitsSpawn known s
    → Present known db
    → (spawn_insertion db.sessions).linked db.spawns (spawn_row (pos 0) s) ≡ true
spawn-linked s known db f p = elim (Bool-cases (str_eq s.parent_id "")) [
  | inl e ↦ rw (e, f.session) refl
  | inr e ↦
      let k : knows known s.parent_id ≡ true = rw e at f.parent in
      rw (e, f.session, p s.parent_id k) (ground arith)
]

module _ (now : ℤ) where
  pub persist_event-ok :
      (e : TranscriptEvent) (known : List String) (db : AgentDb)
      → Fits known e
      → Present known db
      → (n : ℕ) × ((persist_event counted now e db).0 ≡ ok n)
  persist_event-ok (spawned s) known db f p =
      insert_row-ok (spawn_insertion db.sessions) now s db.spawns
        (rw (f.id, f.skill, f.project) refl) (spawn-linked s known db f p)
  persist_event-ok (used t) known db f p =
      insert_row-ok (token_insertion db.spawns) now t db.tokens (rw (f.id, f.source) refl)
        (p t.spawn_id f.spawn)
  persist_event-ok (judged v) known db f p =
      insert_row-ok (verdict_insertion db.spawns) now v db.verdicts (rw (f.id, f.verdict) refl)
        (p v.spawn_id f.spawn)
  persist_event-ok (linked e) known db f p =
      insert_row-ok (edge_insertion db.spawns) now e db.edges (rw (f.from_id, f.to_id, f.kind) refl)
        (rw (p e.from_spawn_id f.from, p e.to_spawn_id f.to) refl)

  pub persist_event-Present :
      (e : TranscriptEvent) (known : List String) (db : AgentDb)
      → Fits known e
      → Present known db
      → Present (brings e known) (persist_event counted now e db).1
  persist_event-Present (spawned s) known db f p id h = elim (Bool-cases (str_eq s.id id)) [
    | inl e ↦
        let found =
          insert_row-same (spawn_insertion db.sessions) now s db.spawns
            (rw (f.id, f.skill, f.project) refl) refl (spawn-linked s known db f p)
            (str_eq_refl s.id) in
        subst (λ u. has_spawn (persist_event counted now (spawned s) db).1.spawns u ≡ true)
          ((eq_iff s.id id).0 e) found
    | inr e ↦
        let k : knows known id ≡ true = rw e at h in
        insert_row-any (spawn_insertion db.sessions) now s db.spawns
          (λ (r : SpawnRow). str_eq r.id id) (p id k)
  ]
  persist_event-Present (used t) known db f p id h = p id h
  persist_event-Present (judged v) known db f p id h = p id h
  persist_event-Present (linked e) known db f p id h = p id h

module _ (d : Decoder) (clock : ℕ → ℤ) (path : String) where
  persist_events-log :
      (es : List TranscriptEvent) (known : List String) (w : World)
      → IsLinked known es
      → Present known w.db
      → (persist_events d (λ n. counted) clock path es w).log ≡ w.log
  persist_events-log [] known w l p = refl
  persist_events-log (e ∷ es) known w l p =
      let now = clock w.calls in
      persist_events-log es (brings e known) (persist_one d (λ n. counted) clock path e w) l.1
        (persist_event-Present now e known w.db l.0 p)
      ∙ rw ((persist_event-ok now e known w.db l.0 p).1) refl

  -- If the engine answers every statement, a line that decodes is written without an error: each of its
  -- spawns, tokens, verdicts and edges finds the spawns that its foreign keys name. A line that does
  -- not decode is logged once and skipped; an empty line is neither.
  pub process_line-log :
      (line : Bytes) (w : World)
      → (process_line d (λ n. counted) clock path line w).log
        ≡ (if decodes d line then w.log else decode_failed path ∷ w.log)
  unfolding process_line parse_transcript_line
  process_line-log [] w = refl
  process_line-log (c ∷ line) w = elim (Option-cases (d.unmarshal (c ∷ line))) [
    | inl e ↦ rw e refl
    | inr e ↦ rw e.1 (
        persist_events-log (record_events d e.0) [] w (record_events-IsLinked d e.0)
          (λ id h. absurd (ground (arith, h))))
  ]
