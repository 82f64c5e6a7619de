-- ===== src/Agents/Transcript/Linked/Records.antt =====
-- internal/agents/transcript.go: the events of a record, and the spawns that they refer to.
use tracelab.Agents.Payload.{one_of, valid_verdicts}
use tracelab.Agents.Tables.{AgentSpawn}
use tracelab.Agents.Transcript.{
  Decoder, TranscriptRecord, TranscriptUsage, TranscriptMessage, TranscriptToolResult,
  TranscriptContentItem, TranscriptToolInput, TranscriptEvent, spawned, pad_to_26, verdict_of_lower,
  map_tool_result_status_to_verdict, spawn_from_tool_use_id, spawn_id_from_record, project_from_cwd,
  parse_transcript_time, strip_non_hex, strip_uuid_hyphens,
}
use tracelab.Agents.Transcript.Parse.{
  no_usage, usage_events, spawn_row_of, verdict_events, edge, result_events, starts_spawn, skill_of,
  content_events, usage_and_content, message_events, refers_to, owner_skill, with_owner, events_at,
  record_events,
}
use tracelab.Agents.Transcript.Linked.{
  pad_to_26_nonempty, project_nonempty, knows, Fits, IsLinked, Within-brought, IsLinked-Within,
  IsLinked-append,
}
use tracelab.Agents.Transcript.Linked.Owned.{
  Owned, Owned-append, result_events-Owned, message_events-Owned,
}
use tracelab.Prelude.{
  String, ◌≡◌, refl, sym, subst, Bool, true, false, not, ◌&&◌, ◌||◌, Option, none, some, List, [],
  ◌∷◌, ◌++◌, str_eq, any, Bool-cases, inl, inr, arith, text_append, str_eq_refl, Time,
}

-- The last known id is known.
knows-head : (id : String) (known : List String) → knows (id ∷ known) id ≡ true
knows-head id known = rw (str_eq_refl id) refl

knows-second : (id other : String) → knows (other ∷ id ∷ []) id ≡ true
knows-second id other = elim (Bool-cases (str_eq other id)) [
  | inl e ↦ rw e refl
  | inr e ↦ rw (e, str_eq_refl id) refl
]

spawn_from_tool_use_id_nonempty :
    (tool parent : String) → str_eq (spawn_from_tool_use_id tool parent) "" ≡ false
spawn_from_tool_use_id_nonempty tool parent = elim (Bool-cases (str_eq (strip_non_hex tool) "")) [
  | inl e ↦ rw e (pad_to_26_nonempty (text_append parent "child"))
  | inr e ↦ rw e (pad_to_26_nonempty (strip_non_hex tool))
]

pub spawn_id_from_record_nonempty :
    (rec : TranscriptRecord) → str_eq (spawn_id_from_record rec) "" ≡ false
spawn_id_from_record_nonempty rec = elim (Bool-cases (str_eq rec.agent_id "")) [
  | inl e ↦ rw e (pad_to_26_nonempty (strip_uuid_hyphens rec.session_id))
  | inr e ↦ rw e (pad_to_26_nonempty rec.agent_id)
]

-- The schema's vocabulary of verdicts.
verdict_of_lower-allowed :
    (s : String)
    → str_eq (verdict_of_lower s) "" ≡ false
    → one_of valid_verdicts (verdict_of_lower s) ≡ true
verdict_of_lower-allowed s h = elim (Bool-cases (str_eq s "completed" || str_eq s "success")) [
  | inl e ↦ rw e refl
  | inr e ↦ elim (Bool-cases (str_eq s "error" || str_eq s "failed")) [
    | inl f ↦ rw (e, f) refl
    | inr f ↦ elim (Bool-cases (str_eq s "escalated" || str_eq s "escalation")) [
      | inl g ↦ rw (e, f, g) refl
      | inr g ↦ elim (Bool-cases (str_eq s "")) [
        | inl k ↦ let bad : Path Bool true false = rw (e, f, g, k) at h in ground (arith, bad)
        | inr k ↦ rw (e, f, g, k) refl
      ]
    ]
  ]
]

skill_of_nonempty : (i : Option TranscriptToolInput) → str_eq (skill_of i) "" ≡ false
skill_of_nonempty none = refl
skill_of_nonempty (some i) = elim (Bool-cases (str_eq i.description "")) [
  | inl e ↦ rw e refl
  | inr e ↦ rw e e
]

module _ (d : Decoder) (id : String) (ts : Time) (project : String) (named : str_eq id "" ≡ false)
    (projected : str_eq project "" ≡ false) where
  usage_events-IsLinked :
      (spawn_id : String) (known : List String) (u : Option TranscriptUsage)
      → str_eq spawn_id "" ≡ false
      → knows known spawn_id ≡ true
      → IsLinked known (usage_events spawn_id ts u)
  usage_events-IsLinked spawn_id known none h k = tt
  usage_events-IsLinked spawn_id known (some u) h k = elim (Bool-cases (no_usage u)) [
    | inl e ↦ rw e tt
    | inr e ↦ rw e (record { id = h; source = refl; spawn = k; allowed = refl }, tt)
  ]

  verdict_events-IsLinked :
      (spawn_id s : String) (known : List String)
      → str_eq spawn_id "" ≡ false
      → knows known spawn_id ≡ true
      → IsLinked known (verdict_events spawn_id ts (verdict_of_lower s))
  verdict_events-IsLinked spawn_id s known h k =
      elim (Bool-cases (str_eq (verdict_of_lower s) "")) [
        | inl e ↦ rw e tt
        | inr e ↦
            rw e (
              record { id = h; verdict = e; spawn = k; allowed = verdict_of_lower-allowed s e },
              tt,
            )
      ]

  result_events-IsLinked :
      (r : Option TranscriptToolResult) → IsLinked (id ∷ []) (result_events d id ts project r)
  result_events-IsLinked none = tt
  result_events-IsLinked (some r) = elim (Bool-cases (str_eq r.agent_id "")) [
    | inl e ↦ rw e tt
    | inr e ↦
        let child = pad_to_26 r.agent_id in
        let known = child ∷ id ∷ [] in
        rw e (
          record {
            id = pad_to_26_nonempty r.agent_id;
            skill = elim (Bool-cases (str_eq r.agent_type "")) [
              | inl f ↦ rw f refl
              | inr f ↦ rw f f
            ];
            project = projected;
            session = refl;
            parent = refl;
          },
          IsLinked-append (verdict_events child ts (map_tool_result_status_to_verdict d r.status))
              (edge child id "return" ts ∷ usage_events child ts r.usage) known
              (verdict_events-IsLinked child (d.to_lower r.status) known
                (pad_to_26_nonempty r.agent_id) (knows-head child (id ∷ [])))
              (
                record {
                  from_id = pad_to_26_nonempty r.agent_id;
                  to_id = named;
                  kind = refl;
                  from = knows-head child (id ∷ []);
                  to = knows-second id child;
                  allowed = refl;
                },
                usage_events-IsLinked child known r.usage (pad_to_26_nonempty r.agent_id)
                    (knows-head child (id ∷ [])),
              ),
        )
  ]

  content_events-IsLinked :
      (cs : List TranscriptContentItem) → IsLinked (id ∷ []) (content_events id ts project cs)
  content_events-IsLinked [] = tt
  content_events-IsLinked (c ∷ cs) = elim (Bool-cases (starts_spawn c)) [
    | inl e ↦
        let child = spawn_from_tool_use_id c.id id in
        rw e (
          record {
            id = spawn_from_tool_use_id_nonempty c.id id;
            skill = skill_of_nonempty c.input;
            project = projected;
            session = refl;
            parent = rw (named, str_eq_refl id) refl;
          },
          (
            record {
              from_id = named;
              to_id = spawn_from_tool_use_id_nonempty c.id id;
              kind = refl;
              from = knows-second id child;
              to = knows-head child (id ∷ []);
              allowed = refl;
            },
            IsLinked-Within (content_events id ts project cs) (id ∷ []) (child ∷ id ∷ [])
                (Within-brought (spawned (spawn_row_of child id "" ts project)) (id ∷ []))
                (content_events-IsLinked cs),
          ),
        )
    | inr e ↦ rw e (content_events-IsLinked cs)
  ]

  message_events-IsLinked :
      (type : String) (m : Option TranscriptMessage)
      → IsLinked (id ∷ []) (message_events type ts project id m)
  message_events-IsLinked type none = tt
  message_events-IsLinked type (some m) = elim (Bool-cases (str_eq type "assistant")) [
    | inl e ↦ rw e (usage_and_content-IsLinked m.content m.usage)
    | inr e ↦ rw e tt
  ]
    where
      usage_and_content-IsLinked :
          (cs : List TranscriptContentItem) (u : Option TranscriptUsage)
          → IsLinked (id ∷ []) (usage_and_content id ts project cs u)
      usage_and_content-IsLinked cs none = tt
      usage_and_content-IsLinked cs (some u) =
          IsLinked-append (usage_events id ts (some u)) (content_events id ts project cs) (id ∷ [])
            (usage_events-IsLinked id (id ∷ []) (some u) named (knows-head id []))
            (content_events-IsLinked cs)

with_owner-IsLinked :
    (owner : AgentSpawn) (es : List TranscriptEvent)
    → Fits [] (spawned owner)
    → Owned owner.id es
    → IsLinked (owner.id ∷ []) es
    → IsLinked [] (with_owner owner es)
with_owner-IsLinked owner es f o l = elim (Bool-cases (any (refers_to owner.id) es)) [
  | inl e ↦ rw e (f, l)
  | inr e ↦ rw e (none_left es o e)
]
  where
    none_left :
        (xs : List TranscriptEvent)
        → Owned owner.id xs
        → any (refers_to owner.id) xs ≡ false
        → IsLinked [] xs
    none_left xs (inl empty) n = subst (λ u. IsLinked [] u) (sym empty) tt
    none_left xs (inr t) n = absurd (ground (arith, t, n))

-- The events of a record, in their order, refer only to spawns that stand before them.
pub record_events-IsLinked :
    (d : Decoder) (rec : TranscriptRecord) → IsLinked [] (record_events d rec)
unfolding record_events
record_events-IsLinked d rec = elim (Bool-cases (str_eq rec.type "")) [
  | inl e ↦ rw e tt
  | inr e ↦ rw e (events_at-IsLinked (parse_transcript_time d rec.timestamp))
]
  where
    events_at-IsLinked : (t : Option Time) → IsLinked [] (events_at d rec t)
    events_at-IsLinked none = tt
    events_at-IsLinked (some ts) =
        let id = spawn_id_from_record rec in
        let project = project_from_cwd rec.cwd in
        let named = spawn_id_from_record_nonempty rec in
        let projected = project_nonempty rec.cwd in
        let results = result_events d id ts project rec.tool_use_result in
        let messages = message_events rec.type ts project id rec.message in
        with_owner-IsLinked (spawn_row_of id "" (owner_skill rec) ts project) (results ++ messages)
          (record {
            id = named;
            skill = elim (Bool-cases (rec.is_sidechain && not (str_eq rec.agent_id ""))) [
              | inl e ↦ rw e refl
              | inr e ↦ rw e refl
            ];
            project = projected;
            session = refl;
            parent = refl;
          })
          (Owned-append id results messages
            (result_events-Owned d id ts project rec.tool_use_result)
            (message_events-Owned d id ts project rec.type rec.message))
          (IsLinked-append results messages (id ∷ [])
            (result_events-IsLinked d id ts project named projected rec.tool_use_result)
            (message_events-IsLinked d id ts project named projected rec.type rec.message))
