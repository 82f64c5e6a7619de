-- ===== src/Agents/Transcript/Replay/Restart.antt =====
-- internal/agents/transcript.go: a bridge that starts again with no offsets.
use tracelab.Agents.Ingest.{AgentDb}
use tracelab.Agents.Tables.{counted}
use tracelab.Agents.Transcript.{Decoder, TranscriptEvent, parse_transcript_time}
use tracelab.Agents.Transcript.Parse.{parse_transcript_line}
use tracelab.Agents.Transcript.Linked.{IsLinked, brings}
use tracelab.Agents.Transcript.Linked.Records.{record_events-IsLinked}
use tracelab.Agents.Transcript.Linked.Persisted.{Present, persist_event-ok, persist_event-Present}
use tracelab.Agents.Transcript.Persist.{World, LogEntry, persist_one, persist_events, process_line}
use tracelab.Agents.Transcript.Replay.{
  Timed, Settled, persist_event-keeps, persist_event-settles, persist_event-quiet,
}
use tracelab.Agents.Transcript.Replay.Timed.{not_zero, is_dated, record_events-Timed}
use tracelab.Agents.Transcript.Tail.{
  opened, new_bridge, bytes_trim, is_empty, process_lines, read_lines, tail_file, whole,
}
use tracelab.Prelude.{
  ℕ, String, ◌≡◌, refl, sym, ap, ◌∙◌, subst, true, false, Option, none, some, List, [], ◌∷◌, ℤ,
  if◌then◌else◌, All, Bool-cases, Option-cases, inl, inr, arith, Bytes, ltb, length, lookup,
}

-- The events of a line, none if it does not decode.
abbrev events_or_none : Option (List TranscriptEvent) → List TranscriptEvent
events_or_none none = []
events_or_none (some es) = es

abbrev line_events : Decoder → Bytes → List TranscriptEvent
line_events d line = events_or_none (parse_transcript_line d line)

line_events-IsLinked : (d : Decoder) (line : Bytes) → IsLinked [] (line_events d line)
unfolding parse_transcript_line
line_events-IsLinked d [] = tt
line_events-IsLinked d (c ∷ line) = elim (Option-cases (d.unmarshal (c ∷ line))) [
  | inl e ↦ rw e tt
  | inr e ↦ rw e.1 (record_events-IsLinked d e.0)
]

line_events-Timed :
    (d : Decoder) (line : Bytes) → is_dated d line ≡ true → All Timed (line_events d line)
unfolding parse_transcript_line
line_events-Timed d [] h = tt
line_events-Timed d (c ∷ line) h = elim (Option-cases (d.unmarshal (c ∷ line))) [
  | inl e ↦ rw e tt
  | inr e ↦
      let k : not_zero (parse_transcript_time d e.0.timestamp) ≡ true = rw e.1 at h in
      rw e.1 (record_events-Timed d e.0 k)
]

-- A line all of whose events are in the tables.
abbrev LineSettled : Decoder → AgentDb → Bytes → Type 0
LineSettled d db line = All (λ e. Settled e db) (line_events d (bytes_trim line))

module _ (d : Decoder) (clock : ℕ → ℤ) (path : String) where
  abbrev events : List TranscriptEvent → World → World
  events = persist_events d (λ n. counted) clock path

  abbrev process : Bytes → World → World
  process = process_line d (λ n. counted) clock path

  process_line-db :
      (line : Bytes) (w : World) → (process line w).db ≡ (events (line_events d line) w).db
  unfolding process_line
  process_line-db line w = elim (Option-cases (parse_transcript_line d line)) [
    | inl e ↦ rw e refl
    | inr e ↦ rw e.1 refl
  ]

  events-keep :
      (y : TranscriptEvent) (es : List TranscriptEvent) (w : World)
      → Settled y w.db
      → Settled y (events es w).db
  events-keep y [] w s = s
  events-keep y (e ∷ es) w s =
      events-keep y es (persist_one d (λ n. counted) clock path e w)
        (persist_event-keeps (clock w.calls) y e w.db s)

  events-settle :
      (es : List TranscriptEvent) (known : List String) (w : World)
      → IsLinked known es
      → Present known w.db
      → All Timed es
      → All (λ e. Settled e (events es w).db) es
  events-settle [] known w l p t = tt
  events-settle (e ∷ es) known w l p t =
      let now = clock w.calls in
      let next = persist_one d (λ n. counted) clock path e w in
      let good = persist_event-ok now e known w.db l.0 p in
      (
        events-keep e es next (persist_event-settles now e w.db good.0 t.0 good.1),
        events-settle es (brings e known) next l.1 (persist_event-Present now e known w.db l.0 p)
            t.1,
      )

  events-quiet :
      (es : List TranscriptEvent) (w : World)
      → All Timed es
      → All (λ e. Settled e w.db) es
      → (events es w).db ≡ w.db
  events-quiet [] w t s = refl
  events-quiet (e ∷ es) w t s =
      let next = persist_one d (λ n. counted) clock path e w in
      let same : next.db ≡ w.db =
        ap (λ r. r.1) (persist_event-quiet (clock w.calls) e w.db t.0 s.0) in
      events-quiet es next t.1 (subst (λ u. All (λ x. Settled x u) es) (sym same) s.1) ∙ same

  All-keep :
      (ys es : List TranscriptEvent) (w : World)
      → All (λ e. Settled e w.db) ys
      → All (λ e. Settled e (events es w).db) ys
  All-keep [] es w s = tt
  All-keep (y ∷ ys) es w s = (events-keep y es w s.0, All-keep ys es w s.1)

  -- What `tailFile` does with one line.
  abbrev step : Bytes → World → World
  step line w = if is_empty (bytes_trim line) then w else process (bytes_trim line) w

  empty_line : (line : Bytes) → is_empty line ≡ true → line_events d line ≡ []
  unfolding parse_transcript_line
  empty_line [] h = refl
  empty_line (c ∷ line) h = ground (arith, h)

  step-db :
      (line : Bytes) (w : World)
      → (step line w).db ≡ (events (line_events d (bytes_trim line)) w).db
  step-db line w = elim (Bool-cases (is_empty (bytes_trim line))) [
    | inl e ↦ rw (e, empty_line (bytes_trim line) e) refl
    | inr e ↦ rw e (process_line-db (bytes_trim line) w)
  ]

  abbrev lines : List Bytes → World → World
  lines = process_lines d (λ n. counted) clock path

  lines-keep :
      (y : Bytes) (ls : List Bytes) (w : World)
      → LineSettled d w.db y
      → LineSettled d (lines ls w).db y
  lines-keep y [] w s = s
  lines-keep y (l ∷ ls) w s = lines-keep y ls (step l w) (
      subst (λ u. LineSettled d u y) (sym (step-db l w))
        (All-keep (line_events d (bytes_trim y)) (line_events d (bytes_trim l)) w s))

  lines-settle :
      (ls : List Bytes) (w : World)
      → All (λ l. is_dated d (bytes_trim l) ≡ true) ls
      → All (LineSettled d (lines ls w).db) ls
  lines-settle [] w t = tt
  lines-settle (l ∷ ls) w t =
      let es = line_events d (bytes_trim l) in
      (
        lines-keep l ls (step l w) (
            subst (λ u. LineSettled d u l) (sym (step-db l w))
              (events-settle es [] w (line_events-IsLinked d (bytes_trim l))
                (λ id h. absurd (ground (arith, h))) (line_events-Timed d (bytes_trim l) t.0))),
        lines-settle ls (step l w) t.1,
      )

  lines-quiet :
      (ls : List Bytes) (w : World)
      → All (λ l. is_dated d (bytes_trim l) ≡ true) ls
      → All (LineSettled d w.db) ls
      → (lines ls w).db ≡ w.db
  lines-quiet [] w t s = refl
  lines-quiet (l ∷ ls) w t s =
      let same : (step l w).db ≡ w.db =
        step-db l w
        ∙ events-quiet (line_events d (bytes_trim l)) w (line_events-Timed d (bytes_trim l) t.0)
            s.0 in
      lines-quiet ls (step l w) t.1 (subst (λ u. All (LineSettled d u) ls) (sym same) s.1) ∙ same

  tail_file-db :
      (bytes : Bytes) (w : World)
      → (tail_file d (λ n. counted) clock path (opened (whole bytes)) (new_bridge w)).world.db
        ≡ (lines (read_lines [] bytes) w).db
  unfolding tail_file lookup
  tail_file-db bytes w = let first : ltb (length bytes) 0 ≡ false = ground arith in rw first refl

-- A restart of the hub loses the offsets, so that files are read again from their start. If the engine
-- answers, the second reading, by whatever clock, leaves every table as the first one left it: nothing
-- is counted twice. No line may carry the zero time as its timestamp.
pub tail_file-restart :
    (d : Decoder) (clock clock2 : ℕ → ℤ) (path : String) (bytes : Bytes) (w : World) (calls : ℕ)
    (log : List LogEntry)
    → All (λ l. is_dated d (bytes_trim l) ≡ true) (read_lines [] bytes)
    → let db =
        (tail_file d (λ n. counted) clock path (opened (whole bytes)) (new_bridge w)).world.db in
      (tail_file d
        (λ n. counted)
        clock2
        path
        (opened (whole bytes))
        (new_bridge (record { db = db; calls = calls; log = log }))).world.db
      ≡ db
tail_file-restart d clock clock2 path bytes w calls log dated =
    let ls = read_lines [] bytes in
    let db = (lines d clock path ls w).db in
    subst
      (λ u.
        (tail_file d (λ n. counted) clock2 path (opened (whole bytes))
          (new_bridge (record { db = u; calls = calls; log = log }))).world.db
        ≡ u)
      (sym (tail_file-db d clock path bytes w))
      (tail_file-db d clock2 path bytes (record { db = db; calls = calls; log = log })
        ∙ lines-quiet d clock2 path ls (record { db = db; calls = calls; log = log }) dated
            (lines-settle d clock path ls w dated))
