-- ===== src/Agents/Transcript/Replay/Timed.antt =====
-- internal/agents/transcript.go: the events of a record that has a time.

use tracelab.Agents.Transcript.{
  Decoder, TranscriptRecord, TranscriptUsage, TranscriptContentItem, TranscriptMessage,
  TranscriptToolResult, TranscriptEvent, parse_transcript_time, spawn_id_from_record,
  project_from_cwd, pad_to_26, map_tool_result_status_to_verdict,
}
use tracelab.Agents.Transcript.Parse.{
  record_events, usage_events, no_usage, verdict_events, result_events, content_events,
  starts_spawn, message_events, with_owner, refers_to, spawn_row_of, owner_skill, events_at,
  usage_and_content, edge,
}
use tracelab.Agents.Transcript.Replay.{Timed}
use tracelab.Prelude.{
  String, ◌≡◌, refl, Bool, true, false, Option, none, some, List, [], ◌∷◌, ◌++◌, ℤ, unix, str_eq,
  any, All, All-append, Bool-cases, inl, inr, arith, Bytes, Time, zero_time,
}

-- Events at an instant do not depend on the clock.
module _ (d : Decoder) (n : ℤ) (id project : String) where
  usage_events-Timed :
      (spawn_id : String) (u : Option TranscriptUsage)
      → All Timed (usage_events spawn_id (unix n) u)
  usage_events-Timed spawn_id none = tt
  usage_events-Timed spawn_id (some u) = elim (Bool-cases (no_usage u)) [
    | inl e ↦ rw e tt
    | inr e ↦ rw e ((λ now. refl), tt)
  ]

  verdict_events-Timed :
      (spawn_id verdict : String) → All Timed (verdict_events spawn_id (unix n) verdict)
  verdict_events-Timed spawn_id verdict = elim (Bool-cases (str_eq verdict "")) [
    | inl e ↦ rw e tt
    | inr e ↦ rw e ((λ now. refl), tt)
  ]

  result_events-Timed :
      (r : Option TranscriptToolResult) → All Timed (result_events d id (unix n) project r)
  result_events-Timed none = tt
  result_events-Timed (some r) = elim (Bool-cases (str_eq r.agent_id "")) [
    | inl e ↦ rw e tt
    | inr e ↦
        let child = pad_to_26 r.agent_id in
        rw e (
          (λ now. refl),
          All-append Timed
              (verdict_events child (unix n) (map_tool_result_status_to_verdict d r.status))
              (edge child id "return" (unix n) ∷ usage_events child (unix n) r.usage)
              (verdict_events-Timed child (map_tool_result_status_to_verdict d r.status))
              ((λ now. refl), usage_events-Timed child r.usage),
        )
  ]

  content_events-Timed :
      (cs : List TranscriptContentItem) → All Timed (content_events id (unix n) project cs)
  content_events-Timed [] = tt
  content_events-Timed (c ∷ cs) = elim (Bool-cases (starts_spawn c)) [
    | inl e ↦ rw e ((λ now. refl), ((λ now. refl), content_events-Timed cs))
    | inr e ↦ rw e (content_events-Timed cs)
  ]

  usage_and_content-Timed :
      (cs : List TranscriptContentItem) (u : Option TranscriptUsage)
      → All Timed (usage_and_content id (unix n) project cs u)
  usage_and_content-Timed cs none = tt
  usage_and_content-Timed cs (some u) =
      All-append Timed (usage_events id (unix n) (some u)) (content_events id (unix n) project cs)
        (usage_events-Timed id (some u)) (content_events-Timed cs)

  message_events-Timed :
      (type : String) (m : Option TranscriptMessage)
      → All Timed (message_events type (unix n) project id m)
  message_events-Timed type none = tt
  message_events-Timed type (some m) = elim (Bool-cases (str_eq type "assistant")) [
    | inl e ↦ rw e (usage_and_content-Timed m.content m.usage)
    | inr e ↦ rw e tt
  ]

-- A timestamp that is absent, or an instant: year 1 is the zero time, for which the store takes the clock.
abbrev pub not_zero : Option Time → Bool
not_zero none = true
not_zero (some zero_time) = false
not_zero (some (unix n)) = true

abbrev pub is_dated_record : Decoder → Option TranscriptRecord → Bool
is_dated_record d none = true
is_dated_record d (some rec) = not_zero (parse_transcript_time d rec.timestamp)

-- A line whose timestamp is not the zero time.
abbrev pub is_dated : Decoder → Bytes → Bool
is_dated d line = is_dated_record d (d.unmarshal line)

with_owner-Timed :
    (id skill project : String) (n : ℤ) (es : List TranscriptEvent)
    → All Timed es
    → All Timed (with_owner (spawn_row_of id "" skill (unix n) project) es)
with_owner-Timed id skill project n es h = elim (Bool-cases (any (refers_to id) es)) [
  | inl e ↦ rw e ((λ now. refl), h)
  | inr e ↦ rw e h
]

events_at-Timed :
    (d : Decoder) (rec : TranscriptRecord) (t : Option Time)
    → not_zero t ≡ true
    → All Timed (events_at d rec t)
events_at-Timed d rec none h = tt
events_at-Timed d rec (some zero_time) h = ground (arith, h)
events_at-Timed d rec (some (unix n)) h =
    let id = spawn_id_from_record rec in
    let project = project_from_cwd rec.cwd in
    with_owner-Timed id (owner_skill rec) project n
      (result_events d id (unix n) project rec.tool_use_result
        ++ message_events rec.type (unix n) project id rec.message)
      (All-append Timed (result_events d id (unix n) project rec.tool_use_result)
        (message_events rec.type (unix n) project id rec.message)
        (result_events-Timed d n id project rec.tool_use_result)
        (message_events-Timed d n id project rec.type rec.message))

pub record_events-Timed :
    (d : Decoder) (rec : TranscriptRecord)
    → not_zero (parse_transcript_time d rec.timestamp) ≡ true
    → All Timed (record_events d rec)
unfolding record_events
record_events-Timed d rec h = elim (Bool-cases (str_eq rec.type "")) [
  | inl e ↦ rw e tt
  | inr e ↦ rw e (events_at-Timed d rec (parse_transcript_time d rec.timestamp) h)
]
