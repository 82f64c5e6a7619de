-- ===== src/Tests/Agents.antt =====
-- internal/agents and internal/store/agents.go at concrete inputs.
use tracelab.Agents.Ingest.{AgentDb, AgentInsertResult, persist}
use tracelab.Agents.Ingest.Repeat.{persist-repeat}
use tracelab.Agents.Payload.{SpawnPayload, IngestPayload, at_row, validate}
use tracelab.Agents.Spawns.{
  in_filter, list_agent_spawns, count_agent_spawns, list_agent_spawns-pages,
}
use tracelab.Agents.Tables.{SpawnRow, counted}
use tracelab.Prelude.{◌*◌, ◌≡◌, refl, true, none, some, [], ◌∷◌, pos, arith, filter}
use tracelab.Store.Paging.{pages, tally_if}
use tracelab.Store.Schema.{ok}

abbrev spawn : SpawnPayload
spawn = record {
  id = "a";
  parent_id = "";
  skill = "qs";
  started_at = pos 5;
  ended_at = none;
  project = "p";
  session_ref = "";
}

abbrev payload : IngestPayload
payload = record {
  source = "sdk-hook";
  spawn = some spawn;
  tokens =
      record {
        spawn_id = "a";
        input_tokens = pos 1;
        output_tokens = pos 2;
        cache_read = pos 0;
        cache_write = pos 0;
        ts = pos 6;
      }
      ∷ [];
  verdicts = record { spawn_id = "a"; verdict = "freigabe"; lerneffekt_md = ""; ts = pos 7 } ∷ [];
  mailbox_edges = [];
  event_refs = [];
}

abbrev db : AgentDb
db = record {
  sessions = [];
  events = [];
  spawns = [];
  tokens = [];
  verdicts = [];
  edges = [];
  event_refs = [];
}

abbrev result : AgentInsertResult
result = record { spawns = 1; tokens = 1; verdicts = 1; mailbox_edges = 0; event_refs = 0 }

abbrev after : AgentDb
after = (persist (λ n. counted) (λ n. pos n) payload db).1

payload-valid : validate payload ≡ none
unfolding validate
payload-valid = refl

payload-persisted : (persist (λ n. counted) (λ n. pos n) payload db).0 ≡ ok result
unfolding persist
payload-persisted = refl

persist-repeat_example : persist (λ n. counted) (λ n. pos 99) payload after ≡ (
  ok (record { spawns = 0; tokens = 0; verdicts = 0; mailbox_edges = 0; event_refs = 0 }),
  after,
)
persist-repeat_example =
    persist-repeat (λ n. counted) (λ n. pos n) (λ n. pos 99) payload db result payload-valid
      payload-persisted

list_agent_spawns-pages_example :
    tally_if
      (λ (s : SpawnRow). true)
      (pages (λ i. list_agent_spawns after.spawns "p" "" (pos 1) (pos (i * 1))) 2)
    ≡ tally_if (λ (s : SpawnRow). true) (filter (in_filter "p" "") after.spawns)
unfolding count_agent_spawns persist
list_agent_spawns-pages_example =
    list_agent_spawns-pages after.spawns "p" "" 0 2 (omega arith) (λ s. true)

-- A verdict outside the vocabulary is refused by its index.
verdict_refused :
    validate (record payload {
      verdicts = record { spawn_id = "a"; verdict = "ok"; lerneffekt_md = ""; ts = pos 7 } ∷ [];
    })
    ≡ some (at_row "verdicts" 0 "verdict invalid")
unfolding validate
verdict_refused = refl
