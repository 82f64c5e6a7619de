-- ===== src/Agents/Transcript/Parse.antt =====
-- internal/agents/transcript.go: `parseTranscriptLine`.
use tracelab.Agents.Tables.{AgentSpawn, AgentTokenUsage}
use tracelab.Agents.Transcript.{
  TranscriptUsage, TranscriptToolInput, TranscriptContentItem, TranscriptMessage,
  TranscriptToolResult, TranscriptRecord, TranscriptEvent, Decoder, project_from_cwd, pad_to_26,
  spawn_id_from_record, spawn_from_tool_use_id, parse_transcript_time,
  map_tool_result_status_to_verdict, spawned, used, judged, linked,
}
use tracelab.Prelude.{
  String, Bool, false, not, ◌&&◌, ◌||◌, Option, none, some, List, [], ◌∷◌, ◌++◌, pos, int_eq,
  str_eq, if◌then◌else◌, any, Time, Bytes,
}

-- The token row of a usage block; none if its four counts are zero.
abbrev pub no_usage : TranscriptUsage → Bool
no_usage u =
    int_eq u.input_tokens (pos 0)
    && int_eq u.output_tokens (pos 0)
    && int_eq u.cache_creation_input_tokens (pos 0)
    && int_eq u.cache_read_input_tokens (pos 0)

abbrev pub token_usage : String → Time → TranscriptUsage → AgentTokenUsage
token_usage spawn_id ts u = record {
  spawn_id = spawn_id;
  input_tokens = u.input_tokens;
  output_tokens = u.output_tokens;
  cache_read = u.cache_read_input_tokens;
  cache_write = u.cache_creation_input_tokens;
  ts = ts;
  source = "transcript";
}

abbrev pub usage_events : String → Time → Option TranscriptUsage → List TranscriptEvent
usage_events spawn_id ts none = []
usage_events spawn_id ts (some u) = if no_usage u then [] else used (token_usage spawn_id ts u) ∷ []

-- A spawn row as the parser writes it, which never names a session.
abbrev pub spawn_row_of : String → String → String → Time → String → AgentSpawn
spawn_row_of id parent_id skill ts project = record {
  id = id;
  parent_id = parent_id;
  skill = skill;
  started_at = ts;
  ended_at = none;
  project = project;
  session_ref = "";
}

abbrev pub verdict_events : String → Time → String → List TranscriptEvent
verdict_events spawn_id ts verdict =
    if str_eq verdict ""
    then []
    else judged (record { spawn_id = spawn_id; verdict = verdict; lerneffekt_md = ""; ts = ts })
      ∷ []

abbrev pub edge : String → String → String → Time → TranscriptEvent
edge from to edge_type ts =
    linked (record { from_spawn_id = from; to_spawn_id = to; edge_type = edge_type; ts = ts })

-- The end of a subagent, which the parent's stream records as `toolUseResult`.
abbrev pub result_events :
    Decoder → String → Time → String → Option TranscriptToolResult → List TranscriptEvent
result_events d spawn_id ts project none = []
result_events d spawn_id ts project (some r) =
    if str_eq r.agent_id ""
    then []
    else spawned (
          spawn_row_of (pad_to_26 r.agent_id) ""
            (if str_eq r.agent_type "" then "subagent" else r.agent_type) ts project)
        ∷ verdict_events (pad_to_26 r.agent_id) ts (map_tool_result_status_to_verdict d r.status)
      ++ edge (pad_to_26 r.agent_id) spawn_id "return" ts
        ∷ usage_events (pad_to_26 r.agent_id) ts r.usage

-- The start of a subagent or a skill, which an assistant message records as `tool_use`.
abbrev pub starts_spawn : TranscriptContentItem → Bool
starts_spawn c =
    str_eq c.type "tool_use"
    && (str_eq c.name "Agent" || str_eq c.name "Task" || str_eq c.name "Skill")

abbrev pub skill_of : Option TranscriptToolInput → String
skill_of none = "unknown"
skill_of (some i) = if str_eq i.description "" then "unknown" else i.description

abbrev pub content_events :
    String → Time → String → List TranscriptContentItem → List TranscriptEvent
content_events spawn_id ts project [] = []
content_events spawn_id ts project (c ∷ cs) =
    let rest = content_events spawn_id ts project cs in
    if starts_spawn c
    then spawned
        (spawn_row_of (spawn_from_tool_use_id c.id spawn_id) spawn_id (skill_of c.input) ts project)
      ∷ edge spawn_id (spawn_from_tool_use_id c.id spawn_id) "spawn" ts
      ∷ rest
    else rest

-- The branch of assistant records, which asks for a usage block, even if it is all zero.
abbrev pub usage_and_content :
    String
    → Time
    → String
    → List TranscriptContentItem
    → Option TranscriptUsage
    → List TranscriptEvent
usage_and_content spawn_id ts project content none = []
usage_and_content spawn_id ts project content (some u) =
    usage_events spawn_id ts (some u) ++ content_events spawn_id ts project content

abbrev pub message_events :
    String → Time → String → String → Option TranscriptMessage → List TranscriptEvent
message_events type ts project spawn_id none = []
message_events type ts project spawn_id (some m) =
    if str_eq type "assistant" then usage_and_content spawn_id ts project m.content m.usage else []

-- `hasOwnerChild`
abbrev pub refers_to : String → TranscriptEvent → Bool
refers_to id (spawned s) = false
refers_to id (used t) = str_eq t.spawn_id id
refers_to id (judged v) = str_eq v.spawn_id id
refers_to id (linked e) = str_eq e.from_spawn_id id || str_eq e.to_spawn_id id

abbrev pub owner_skill : TranscriptRecord → String
owner_skill rec = if rec.is_sidechain && not (str_eq rec.agent_id "") then "subagent" else "session"

abbrev pub with_owner : AgentSpawn → List TranscriptEvent → List TranscriptEvent
with_owner owner events = if any (refers_to owner.id) events then spawned owner ∷ events else events

-- The events of a record whose timestamp was parsed.
abbrev pub events_at : Decoder → TranscriptRecord → Option Time → List TranscriptEvent
events_at d rec none = []
events_at d rec (some ts) =
    let id = spawn_id_from_record rec in
    let project = project_from_cwd rec.cwd in
    with_owner (spawn_row_of id "" (owner_skill rec) ts project) (
      result_events d id ts project rec.tool_use_result
      ++ message_events rec.type ts project id rec.message)

unfoldable pub record_events : Decoder → TranscriptRecord → List TranscriptEvent
record_events d rec =
    if str_eq rec.type "" then [] else events_at d rec (parse_transcript_time d rec.timestamp)

-- `parseTranscriptLine`; `none` is the error of the JSON decoder.
abbrev pub decoded_events : Decoder → Option TranscriptRecord → Option (List TranscriptEvent)
decoded_events d none = none
decoded_events d (some rec) = some (record_events d rec)

unfoldable pub parse_transcript_line : Decoder → Bytes → Option (List TranscriptEvent)
parse_transcript_line d [] = some []
parse_transcript_line d (c ∷ line) = decoded_events d (d.unmarshal (c ∷ line))
