-- ===== src/Agents/Endpoints/Mux.antt =====
-- internal/agents/read.go: the handlers, and the dispatcher in front of them.
use tracelab.Agents.Endpoints.{
  SpawnsListResp, TreeResp, TokenTotals, spawn_row_to_wire, parse_limit_param, parse_offset_param,
  is_valid_spawn_id_format, token_totals, tree_nodes,
}
use tracelab.Agents.Ingest.{AgentDb}
use tracelab.Agents.Reads.{
  AgentEdgeBundle, agent_tokens_by_spawn, agent_verdicts_by_spawn, agent_event_refs_for_spawn,
  agent_edges_for_spawn,
}
use tracelab.Agents.Spawns.{list_agent_spawns, count_agent_spawns}
use tracelab.Agents.Tables.{AgentTokenUsage, AgentVerdict, AgentEventRef}
use tracelab.Agents.Tree.{Tree, spawns, refused, unknown, exhausted, list_agent_spawn_tree}
use tracelab.Prelude.{
  ℕ, String, Bool, true, false, not, ◌||◌, Option, none, some, List, [], ◌∷◌, map, pos, str_eq,
  if◌then◌else◌, ltb, ◌==◌, Assoc, lookup, text_length, text_take, text_any, cut_prefix, trim_space,
}
use tracelab.Store.Schema.{Result, ok, err}

-- What the dispatcher reads of a request.
pub record Request : Type 0 where
  pub method : String
  pub path : String
  pub authorization : String
  pub query : Assoc String

-- The answers: the next handler's, an error with its message, or a body.
pub data Reply : Type 0 where
  passed : Reply
  unauthorized : Reply
  bad_request : String → Reply
  not_found : String → Reply
  internal_error : String → Reply
  sessions : SpawnsListResp → Reply
  tree : TreeResp → Reply
  tokens : String → List AgentTokenUsage → TokenTotals → Reply
  verdicts : String → List AgentVerdict → Reply
  edges : String → AgentEdgeBundle → Reply
  event_refs : String → List AgentEventRef → Reply

-- `r.URL.Query().Get(key)`
abbrev or_blank : Option String → String
or_blank none = ""
or_blank (some s) = s

abbrev pub get : String → Request → String
get key r = or_blank (lookup key r.query)

abbrev pub cap_at : ℕ → String → String
cap_at n s = if ltb n (text_length s) then text_take n s else s

-- The bearer guard of `AgentsReadMux`.
abbrev pub authorized : String → Option String → Reply → Reply
authorized token none reply = unauthorized
authorized token (some got) reply = if str_eq got token then reply else unauthorized

abbrev pub guarded : String → Request → Option Reply → Reply
guarded token r none = passed
guarded token r (some reply) = authorized token (cut_prefix "Bearer " r.authorization) reply

-- `io n` says whether the engine answers the n-th query of the request.
module _ (io : ℕ → Bool) (db : AgentDb) where
  -- `readSessions`
  unfoldable pub read_sessions : Request → Reply
  read_sessions r =
      let limit = parse_limit_param (get "limit" r) (pos 50) (pos 500) in
      let offset = parse_offset_param (get "offset" r) in
      let project = cap_at 128 (trim_space (get "project" r)) in
      let session_ref = cap_at 128 (trim_space (get "session_ref" r)) in
      if not (io 0)
      then internal_error "count failed"
      else if not (io 1)
      then internal_error "list failed"
      else sessions (record {
        spawns =
            map spawn_row_to_wire (list_agent_spawns db.spawns project session_ref limit offset);
        total = count_agent_spawns db.spawns project session_ref;
        limit = limit;
        offset = offset;
      })

  -- `readTree`
  abbrev pub tree_reply : String → Tree → Reply
  tree_reply root refused = internal_error "tree query failed"
  tree_reply root unknown = not_found "spawn not found"
  tree_reply root exhausted = internal_error "tree query failed"
  tree_reply root (spawns rows) =
      tree (record { root = root; nodes = tree_nodes root ((root, 0) ∷ []) rows })

  unfoldable pub read_tree : String → Reply
  read_tree root =
      if str_eq root "" || text_any (λ (c : ℕ). c == b'/' || c == b'?' || c == b'#') root
      then bad_request "spawn_id required"
      else if not (is_valid_spawn_id_format root)
      then bad_request "invalid spawn_id"
      else if not (io 0)
      then internal_error "tree query failed"
      else tree_reply root (list_agent_spawn_tree db.spawns root)

  -- The head that the four handlers with a `spawn_id` share, and their answer to the store's.
  abbrev pub answer : {A : Type 0} → String → (A → Reply) → Result A → Reply
  answer failure body (ok a) = if io 0 then body a else internal_error failure
  answer failure body (err e) = internal_error failure

  abbrev pub with_spawn_id : Request → (String → Reply) → Reply
  with_spawn_id r k =
      let id = trim_space (get "spawn_id" r) in
      if str_eq id ""
      then bad_request "spawn_id required"
      else if not (is_valid_spawn_id_format id)
      then bad_request "invalid spawn_id"
      else k id

  -- `readTokens`
  unfoldable pub read_tokens : Request → Reply
  read_tokens r = with_spawn_id r (λ id.
      answer "tokens query failed" (λ rows. tokens id rows (token_totals rows))
        (agent_tokens_by_spawn db.tokens id))

  -- `readVerdicts`
  unfoldable pub read_verdicts : Request → Reply
  read_verdicts r = with_spawn_id r (λ id.
      answer "verdicts query failed" (λ rows. verdicts id rows)
        (agent_verdicts_by_spawn db.verdicts id))

  -- `readEdges`
  unfoldable pub read_edges : Request → Reply
  read_edges r =
      with_spawn_id r
        (λ id. answer "edges query failed" (λ b. edges id b) (agent_edges_for_spawn db.edges id))

  -- `readEventRefs`
  unfoldable pub read_event_refs : Request → Reply
  read_event_refs r = with_spawn_id r (λ id.
      answer "event_refs query failed" (λ rows. event_refs id rows)
        (agent_event_refs_for_spawn db.event_refs id))

  -- The switch of `AgentsReadMux` over the path; `none` is the next handler.
  abbrev pub tree_or : Option String → Option Reply → Option Reply
  tree_or none rest = rest
  tree_or (some root) rest = some (read_tree root)

  abbrev pub dispatch : String → Request → Option Reply
  dispatch path r =
      if str_eq path "/agents/sessions"
      then some (read_sessions r)
      else tree_or (cut_prefix "/agents/tree/" path) (
          if str_eq path "/agents/tokens"
          then some (read_tokens r)
          else if str_eq path "/agents/verdicts"
          then some (read_verdicts r)
          else if str_eq path "/agents/edges"
          then some (read_edges r)
          else if str_eq path "/agents/event_refs"
          then some (read_event_refs r)
          else none)

  abbrev pub under_agents : String → Option String → Request → Reply
  under_agents token none r = passed
  under_agents token (some rest) r = guarded token r (dispatch r.path r)

  -- `AgentsReadMux`; `none` is its panic on an empty token.
  unfoldable pub agents_read_mux : String → Request → Option Reply
  agents_read_mux token r =
      if str_eq token ""
      then none
      else if not (str_eq r.method "GET")
      then some passed
      else some (under_agents token (cut_prefix "/agents/" r.path) r)

-- A reply with the rows of some table.
abbrev pub shows_rows : Reply → Bool
shows_rows (sessions b) = true
shows_rows (tree b) = true
shows_rows (tokens id rows t) = true
shows_rows (verdicts id rows) = true
shows_rows (edges id b) = true
shows_rows (event_refs id rows) = true
shows_rows r = false

-- The reply is the client's or the store's fault, or it shows rows.
abbrev pub is_answer : Reply → Bool
is_answer passed = false
is_answer unauthorized = false
is_answer r = true
