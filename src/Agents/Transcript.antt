-- ===== src/Agents/Transcript.antt =====
-- internal/agents/transcript.go: a line of a Claude Code transcript, and the rows that it stands for.
pub mod Parse
pub mod Persist
pub mod Linked
pub mod Tail
pub mod Replay
use tracelab.Prelude.{
  ℕ, ◌-◌, String, Bool, true, false, not, ◌&&◌, ◌||◌, Option, none, some, List, [], ◌∷◌, ◌++◌, ℤ,
  pos, int_eq, str_eq, if◌then◌else◌, any, Time, Bytes, leb, ◌==◌, text_length, text_take,
  text_append, repeat_text, text_filter,
}
use tracelab.Agents.Tables.{AgentSpawn, AgentTokenUsage, AgentVerdict, AgentMailboxEdge}

pub record TranscriptUsage : Type 0 where
  pub input_tokens : ℤ
  pub output_tokens : ℤ
  pub cache_creation_input_tokens : ℤ
  pub cache_read_input_tokens : ℤ

pub record TranscriptToolInput : Type 0 where
  pub description : String
  pub prompt : String

pub record TranscriptContentItem : Type 0 where
  pub type : String
  pub name : String
  pub id : String
  pub input : Option TranscriptToolInput

pub record TranscriptMessage : Type 0 where
  pub id : String
  pub role : String
  pub model : String
  pub usage : Option TranscriptUsage
  pub content : List TranscriptContentItem

pub record TranscriptToolResult : Type 0 where
  pub status : String
  pub agent_id : String
  pub agent_type : String
  pub total_tokens : ℤ
  pub total_duration_ms : ℤ
  pub total_tool_use_count : ℤ
  pub usage : Option TranscriptUsage

pub record TranscriptRecord : Type 0 where
  pub type : String
  pub uuid : String
  pub session_id : String
  pub agent_id : String
  pub is_sidechain : Bool
  pub timestamp : String
  pub cwd : String
  pub message : Option TranscriptMessage
  pub tool_use_result : Option TranscriptToolResult

-- `transcriptEvent`: exactly one of its four pointers is set.
pub data TranscriptEvent : Type 0 where
  spawned : AgentSpawn → TranscriptEvent
  used : AgentTokenUsage → TranscriptEvent
  judged : AgentVerdict → TranscriptEvent
  linked : AgentMailboxEdge → TranscriptEvent

pub data Layout : Type 0 where
  rfc3339_nano rfc3339 : Layout

-- What the parser takes from the standard library: `json.Unmarshal` of a line, `time.Parse` and
-- `strings.ToLower`.
pub record Decoder : Type 0 where
  pub unmarshal : Bytes → Option TranscriptRecord
  pub parse_time : Layout → String → Option Time
  pub to_lower : String → String

-- `filepath.Base` of a path that is not empty: the last element, or a slash. `last` is the last
-- element so far, `element` the one that is being read.
abbrev pub base_from : String → String → String → String
base_from last element String.[] = if str_eq element "" then last else element
base_from last element (String.◌∷◌ c s) =
    base_from
      (if str_eq (String.◌∷◌ c "") "/" then (if str_eq element "" then last else element) else last)
      (if str_eq (String.◌∷◌ c "") "/" then "" else text_append element (String.◌∷◌ c "")) s

abbrev pub base : String → String
base path = let name = base_from "" "" path in if str_eq name "" then "/" else name

-- `projectFromCWD`
abbrev pub project_from_cwd : String → String
project_from_cwd cwd = if str_eq cwd "" then "unknown" else base cwd

-- `padTo26`
unfoldable pub pad_to_26 : String → String
pad_to_26 s =
    if leb 26 (text_length s)
    then text_take 26 s
    else text_append s (repeat_text (26 - text_length s) "a")

-- `stripUUIDHyphens`
abbrev pub strip_uuid_hyphens : String → String
strip_uuid_hyphens s = text_filter (λ (c : ℕ). not (c == b'-')) s

-- `stripNonHex`
abbrev pub is_hex : ℕ → Bool
is_hex c = (leb b'0' c && leb c b'9') || (leb b'a' c && leb c b'f') || (leb b'A' c && leb c b'F')

abbrev pub strip_non_hex : String → String
strip_non_hex s = text_filter is_hex s

-- `spawnIDFromRecord`
abbrev pub spawn_id_from_record : TranscriptRecord → String
spawn_id_from_record rec =
    if not (str_eq rec.agent_id "")
    then pad_to_26 rec.agent_id
    else pad_to_26 (strip_uuid_hyphens rec.session_id)

-- `spawnFromToolUseID`
abbrev pub spawn_from_tool_use_id : String → String → String
spawn_from_tool_use_id tool_use_id parent_spawn_id =
    if str_eq (strip_non_hex tool_use_id) ""
    then pad_to_26 (text_append parent_spawn_id "child")
    else pad_to_26 (strip_non_hex tool_use_id)

-- `parseTranscriptTime`
abbrev pub first_some : {A : Type 0} → Option A → Option A → Option A
first_some (some a) rest = some a
first_some none rest = rest

abbrev pub parse_transcript_time : Decoder → String → Option Time
parse_transcript_time d s =
    if str_eq s "" then none else first_some (d.parse_time rfc3339_nano s) (d.parse_time rfc3339 s)

-- `mapToolResultStatusToVerdict`, on the status in lower case.
abbrev pub verdict_of_lower : String → String
verdict_of_lower s =
    if str_eq s "completed" || str_eq s "success"
    then "freigabe"
    else if str_eq s "error" || str_eq s "failed"
    then "rueckgabe"
    else if str_eq s "escalated" || str_eq s "escalation"
    then "eskalation"
    else if str_eq s ""
    then ""
    else "none"

abbrev pub map_tool_result_status_to_verdict : Decoder → String → String
map_tool_result_status_to_verdict d status = verdict_of_lower (d.to_lower status)
