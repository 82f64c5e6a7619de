-- ===== src/Agents/Transcript/Linked/Owned.antt =====
-- internal/agents/transcript.go: the events of a record refer to its owner.

use tracelab.Agents.Transcript.{
  Decoder, TranscriptUsage, TranscriptMessage, TranscriptToolResult, TranscriptContentItem,
  TranscriptEvent, pad_to_26, map_tool_result_status_to_verdict,
}
use tracelab.Agents.Transcript.Parse.{
  no_usage, usage_events, verdict_events, result_events, starts_spawn, content_events,
  usage_and_content, message_events, refers_to,
}
use tracelab.Prelude.{
  String, ◌≡◌, refl, true, Option, none, some, List, [], ◌∷◌, ◌++◌, str_eq, any, any-left,
  any-right, Bool-cases, inl, inr, ◌⊎◌, arith, str_eq_refl, Time,
}

-- Events that refer to `id`, or none at all.
abbrev pub Owned : String → List TranscriptEvent → Type 0
Owned id es = (es ≡ []) ⊎ (any (refers_to id) es ≡ true)

pub Owned-append :
    (id : String) (xs ys : List TranscriptEvent) → Owned id xs → Owned id ys → Owned id (xs ++ ys)
Owned-append id xs ys (inl e) o = rw e o
Owned-append id xs ys (inr t) o = inr (any-left (refers_to id) xs ys t)

module _ (d : Decoder) (id : String) (ts : Time) (project : String) where
  usage_events-Owned : (u : TranscriptUsage) → Owned id (usage_events id ts (some u))
  usage_events-Owned u = elim (Bool-cases (no_usage u)) [
    | inl e ↦ inl (rw e refl)
    | inr e ↦ inr (rw (e, str_eq_refl id) refl)
  ]

  content_events-Owned :
      (cs : List TranscriptContentItem) → Owned id (content_events id ts project cs)
  content_events-Owned [] = inl refl
  content_events-Owned (c ∷ cs) = elim (Bool-cases (starts_spawn c)) [
    | inl e ↦ inr (rw (e, str_eq_refl id) refl)
    | inr e ↦ rw e (content_events-Owned cs)
  ]

  pub result_events-Owned :
      (r : Option TranscriptToolResult) → Owned id (result_events d id ts project r)
  result_events-Owned none = inl refl
  result_events-Owned (some r) = elim (Bool-cases (str_eq r.agent_id "")) [
    | inl e ↦ inl (rw e refl)
    | inr e ↦ inr (
        rw e (
          any-right (refers_to id)
            (verdict_events (pad_to_26 r.agent_id) ts
              (map_tool_result_status_to_verdict d r.status))
            _ (rw (str_eq_refl id) (ground arith))))
  ]

  pub message_events-Owned :
      (type : String) (m : Option TranscriptMessage)
      → Owned id (message_events type ts project id m)
  message_events-Owned type none = inl refl
  message_events-Owned type (some m) = elim (Bool-cases (str_eq type "assistant")) [
    | inl e ↦ rw e (usage_and_content-Owned m.content m.usage)
    | inr e ↦ inl (rw e refl)
  ]
    where
      usage_and_content-Owned :
          (cs : List TranscriptContentItem) (u : Option TranscriptUsage)
          → Owned id (usage_and_content id ts project cs u)
      usage_and_content-Owned cs none = inl refl
      usage_and_content-Owned cs (some u) =
          Owned-append id (usage_events id ts (some u)) (content_events id ts project cs)
            (usage_events-Owned u) (content_events-Owned cs)
