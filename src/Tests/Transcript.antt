-- ===== src/Tests/Transcript.antt =====
-- internal/agents/transcript.go at concrete inputs.

use tracelab.Agents.Tables.{Answer, counted}
use tracelab.Agents.Transcript.{
  Decoder, TranscriptEvent, TranscriptRecord, Layout, base, pad_to_26, strip_non_hex,
}
use tracelab.Agents.Transcript.Parse.{parse_transcript_line, record_events}
use tracelab.Agents.Transcript.Linked.Persisted.{decodes}
use tracelab.Agents.Transcript.Linked.Stored.{is_stored, or_none, process_line-is_stored}
use tracelab.Agents.Transcript.Persist.{World, decode_failed, process_line}
use tracelab.Agents.Transcript.Replay.Restart.{tail_file-restart}
use tracelab.Agents.Transcript.Tail.{
  TranscriptBridge, opened, whole, new_bridge, read_lines, tail_file,
}
use tracelab.Agents.Transcript.Tail.Growth.{grown, tail_growth, tail_growth-whole}
use tracelab.Agents.Transcript.Tail.Offsets.{tail_file-offsets}
use tracelab.Prelude.{
  All, true, ℕ, String, ◌≡◌, refl, false, none, some, [], ◌∷◌, ◌++◌, ℤ, pos, unix, if◌then◌else◌,
  length, Bytes, bytes_eq, codes, lookup, arith,
}

-- An assistant message that starts a subagent and the result of another.
abbrev record_1 : TranscriptRecord
record_1 = record {
  type = "assistant";
  uuid = "u";
  session_id = "ab-cd";
  agent_id = "";
  is_sidechain = false;
  timestamp = "t";
  cwd = "/home/p/";
  message = some (record {
    id = "m";
    role = "assistant";
    model = "x";
    usage = some (record {
      input_tokens = pos 3;
      output_tokens = pos 4;
      cache_creation_input_tokens = pos 0;
      cache_read_input_tokens = pos 0;
    });
    content =
        record { type = "tool_use"; name = "Task"; id = "toolu_01"; input = none }
        ∷ record { type = "text"; name = ""; id = ""; input = none }
        ∷ [];
  });
  tool_use_result = some (record {
    status = "completed";
    agent_id = "77";
    agent_type = "";
    total_tokens = pos 0;
    total_duration_ms = pos 0;
    total_tool_use_count = pos 0;
    usage = none;
  });
}

abbrev decoder : Decoder
decoder = record {
  unmarshal = λ (line : Bytes). if bytes_eq line (codes "A") then some record_1 else none;
  parse_time = λ (l : Layout) (s : String). some (unix (pos 5));
  to_lower = λ (s : String). s;
}

abbrev empty_world : World
empty_world = record {
  db = record {
    sessions = [];
    events = [];
    spawns = [];
    tokens = [];
    verdicts = [];
    edges = [];
    event_refs = [];
  };
  calls = 0;
  log = [];
}

abbrev answers : ℕ → Answer
answers n = counted

abbrev clock : ℕ → ℤ
clock n = pos n

project_slug : base "/home/p/" ≡ "p"
project_slug = refl

padded : pad_to_26 "abcd" ≡ "abcdaaaaaaaaaaaaaaaaaaaaaa"
unfolding pad_to_26
padded = refl

hex_suffix : strip_non_hex "toolu_01" ≡ "01"
hex_suffix = refl

process_line-is_stored_example :
    All
      (λ (e : TranscriptEvent).
        is_stored (process_line decoder answers clock "f" (codes "A") empty_world).db e ≡ true)
      (or_none (parse_transcript_line decoder (codes "A")))
    × ((process_line decoder answers clock "f" (codes "A") empty_world).log ≡ (
        if decodes decoder (codes "A")
        then empty_world.log
        else decode_failed "f" ∷ empty_world.log))
process_line-is_stored_example = process_line-is_stored decoder clock "f" (codes "A") empty_world

-- The three spawn rows: the owner, the subagent that ended, and the one that starts.
line_spawns : length (process_line decoder answers clock "f" (codes "A") empty_world).db.spawns ≡ 3
unfolding process_line parse_transcript_line record_events pad_to_26
line_spawns = refl

-- A file that grows by half a line, and then by the rest and a line that does not decode.
tail_growth-whole_example :
    tail_growth decoder answers clock "f" []
      ((codes "A", []) ∷ (10 ∷ [], codes "B" ++ 10 ∷ []) ∷ [])
      (new_bridge empty_world)
    ≡ tail_file decoder answers clock "f"
        (opened (whole (grown [] ((codes "A", []) ∷ (10 ∷ [], codes "B" ++ 10 ∷ []) ∷ []))))
        (new_bridge empty_world)
unfolding lookup
tail_growth-whole_example =
    tail_growth-whole decoder answers clock "f" [] (codes "A", [])
      ((10 ∷ [], codes "B" ++ 10 ∷ []) ∷ []) (new_bridge empty_world) (omega arith)

abbrev first_run : TranscriptBridge
first_run =
    tail_file decoder answers clock "f" (opened (whole (codes "A" ++ 10 ∷ [])))
      (new_bridge empty_world)

tail_file-restart_example :
    (tail_file decoder answers
      (λ n. pos 9)
      "f"
      (opened (whole (codes "A" ++ 10 ∷ [])))
      (new_bridge (record { db = first_run.world.db; calls = 0; log = [] }))).world.db
    ≡ first_run.world.db
unfolding read_lines
tail_file-restart_example =
    tail_file-restart decoder clock (λ n. pos 9) "f" (codes "A" ++ 10 ∷ []) empty_world 0 []
      (refl, tt)

tail_file-offsets_example :
    lookup "f"
      (tail_file decoder answers clock "f"
        (opened (whole (codes "A" ++ 10 ∷ [])))
        (new_bridge empty_world)).offsets
    ≡ some 2
unfolding lookup read_lines
tail_file-offsets_example =
    tail_file-offsets decoder answers clock "f" "f" (opened (whole (codes "A" ++ 10 ∷ [])))
      (new_bridge empty_world)
