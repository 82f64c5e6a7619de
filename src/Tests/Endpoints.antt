-- ===== src/Tests/Endpoints.antt =====
-- internal/agents/read.go at concrete inputs.
use tracelab.Agents.Endpoints.{
  or_no_tokens, token_totals, parse_limit_param, is_valid_spawn_id_format,
}
use tracelab.Agents.Endpoints.Access.{agents_read_mux-access}
use tracelab.Agents.Endpoints.Mux.{Request, tokens, unauthorized, agents_read_mux, read_tokens}
use tracelab.Agents.Endpoints.Totals.{of_source, AreTotals, IsSum, token_totals-by_source}
use tracelab.Agents.Ingest.{AgentDb}
use tracelab.Agents.Reads.{agent_tokens_by_spawn}
use tracelab.Agents.Tables.{AgentTokenUsage, SpawnRow}
use tracelab.Prelude.{
  ℕ, String, ◌≡◌, ◌≢◌, refl, true, none, some, List, [], ◌∷◌, pos, unix, add64, lookup, put, filter,
  text_append,
}
use tracelab.Store.Query.{order_by, insert_by}

abbrev usage : String → ℕ → AgentTokenUsage
usage source n = record {
  spawn_id = "a";
  input_tokens = pos n;
  output_tokens = pos 0;
  cache_read = pos 0;
  cache_write = pos 0;
  ts = unix (pos n);
  source = source;
}

abbrev usages : List AgentTokenUsage
usages = usage "transcript" 2 ∷ usage "sdk-hook" 3 ∷ usage "transcript" 4 ∷ []

abbrev root : SpawnRow
root = record {
  id = "a";
  parent_id = none;
  skill = "qs";
  started_at = pos 5;
  ended_at = none;
  project = "p";
  session_ref = none;
}

abbrev db : AgentDb
db = record {
  sessions = [];
  events = [];
  spawns = root ∷ [];
  tokens = usages;
  verdicts = [];
  edges = [];
  event_refs = [];
}

abbrev request : String → Request
request header = record {
  method = "GET";
  path = "/agents/tokens";
  authorization = header;
  query = ("spawn_id", " a ") ∷ [];
}

token_totals-by_source_example :
    AreTotals (token_totals usages) usages
    × IsSum
        (or_no_tokens (lookup "transcript" (token_totals usages).by_source))
        (filter (of_source "transcript") usages)
token_totals-by_source_example = token_totals-by_source usages "transcript"

six_tokens :
    (or_no_tokens (lookup "transcript" (token_totals usages).by_source)).input_tokens ≡ pos 6
unfolding token_totals lookup put add64
six_tokens = refl

no_token : agents_read_mux (λ n. true) db "s" (request "Bearer t") ≡ some unauthorized
unfolding agents_read_mux
no_token = refl

token_served :
    agents_read_mux (λ n. true) db "s" (request "Bearer s")
    ≡ some (tokens "a" usages (token_totals usages))
unfolding agents_read_mux read_tokens agent_tokens_by_spawn is_valid_spawn_id_format lookup order_by
    insert_by
token_served = refl

agents_read_mux-access_example :
    ((request "Bearer s").method ≡ "GET")
    × ((request "Bearer s").authorization ≡ text_append "Bearer " "s")
    × (◌≢◌ {A = String} "s" "")
agents_read_mux-access_example =
    agents_read_mux-access (λ n. true) db "s" (request "Bearer s")
      (tokens "a" usages (token_totals usages)) token_served refl

limits : parse_limit_param "900" (pos 50) (pos 500) ≡ pos 500
unfolding parse_limit_param
limits = refl
