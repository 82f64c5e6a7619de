-- ===== src/Agents/Reads.antt =====
-- internal/store/agents.go: the reads by spawn, and the edges of many spawns at once.
--
-- The rows come without their `id`, whose order is that of the list.
pub mod Bundles
pub mod Chunks
use tracelab.Agents.Tables.{AgentTokenUsage, AgentVerdict, AgentMailboxEdge, AgentEventRef}
use tracelab.Prelude.{
  ℕ, zero, suc, String, Bool, true, false, ◌||◌, Option, none, some, List, [], ◌∷◌, ◌++◌, str_eq,
  int_leb, if◌then◌else◌, any, length, take, drop, filter, Assoc, lookup, put, Time, unix_nano,
}
use tracelab.Store.Query.{order_by}
use tracelab.Store.Schema.{Result, ok, err, invalid}

-- `WHERE … ORDER BY ts ASC, id ASC`: a stable sort by the time.
abbrev pub by_ts : {A : Type 0} → (A → Time) → A → A → Bool
by_ts ts a b = int_leb (unix_nano (ts a)) (unix_nano (ts b))

abbrev pub select : {A : Type 0} → (A → Time) → (A → Bool) → List A → List A
select ts p rows = order_by (by_ts ts) (filter p rows)

abbrev pub need_id : {A : Type 0} → String → A → Result A
need_id id rows = if str_eq id "" then err invalid else ok rows

-- `AgentTokensBySpawn`
unfoldable pub agent_tokens_by_spawn : List AgentTokenUsage → String → Result (List AgentTokenUsage)
agent_tokens_by_spawn table id =
    need_id id
      (select (λ (r : AgentTokenUsage). r.ts) (λ (r : AgentTokenUsage). str_eq r.spawn_id id) table)

-- `AgentVerdictsBySpawn`
unfoldable pub agent_verdicts_by_spawn : List AgentVerdict → String → Result (List AgentVerdict)
agent_verdicts_by_spawn table id =
    need_id id
      (select (λ (r : AgentVerdict). r.ts) (λ (r : AgentVerdict). str_eq r.spawn_id id) table)

-- `AgentEventRefsForSpawn`
unfoldable pub agent_event_refs_for_spawn :
    List AgentEventRef → String → Result (List AgentEventRef)
agent_event_refs_for_spawn table id =
    need_id id
      (select (λ (r : AgentEventRef). r.ts) (λ (r : AgentEventRef). str_eq r.spawn_id id) table)

-- The queries on the edges: those into, and those out of, the ids that pass a test.
abbrev pub edge_ts : AgentMailboxEdge → Time
edge_ts e = e.ts

abbrev pub edges_to : (String → Bool) → List AgentMailboxEdge → List AgentMailboxEdge
edges_to p = select edge_ts (λ (e : AgentMailboxEdge). p e.to_spawn_id)

abbrev pub edges_from : (String → Bool) → List AgentMailboxEdge → List AgentMailboxEdge
edges_from p = select edge_ts (λ (e : AgentMailboxEdge). p e.from_spawn_id)

-- `AgentEdgeBundle`
pub record AgentEdgeBundle : Type 0 where
  pub incoming : List AgentMailboxEdge
  pub outgoing : List AgentMailboxEdge

abbrev pub no_edges : AgentEdgeBundle
no_edges = record { incoming = []; outgoing = [] }

-- `AgentEdgesForSpawn`, its two slices as a bundle.
unfoldable pub agent_edges_for_spawn : List AgentMailboxEdge → String → Result AgentEdgeBundle
agent_edges_for_spawn table id = need_id id (record {
  incoming = edges_to (λ (s : String). str_eq s id) table;
  outgoing = edges_from (λ (s : String). str_eq s id) table;
})

-- `out[id]`, where a missing key is the empty bundle.
abbrev pub or_no_edges : Option AgentEdgeBundle → AgentEdgeBundle
or_no_edges none = no_edges
or_no_edges (some b) = b

abbrev pub bundle_at : String → Assoc AgentEdgeBundle → AgentEdgeBundle
bundle_at id bundles = or_no_edges (lookup id bundles)

-- `scanEdgeRowsInto` with the sinks of the two queries: each row is appended at its own end of the edge.
abbrev pub scan_into :
    (AgentMailboxEdge → String)
    → (AgentMailboxEdge → AgentEdgeBundle → AgentEdgeBundle)
    → List AgentMailboxEdge
    → Assoc AgentEdgeBundle
    → Assoc AgentEdgeBundle
scan_into key push [] bundles = bundles
scan_into key push (e ∷ es) bundles =
    scan_into key push es (put (key e) (push e (bundle_at (key e) bundles)) bundles)

abbrev pub push_incoming : AgentMailboxEdge → AgentEdgeBundle → AgentEdgeBundle
push_incoming e b = record b { incoming = b.incoming ++ e ∷ [] }

abbrev pub push_outgoing : AgentMailboxEdge → AgentEdgeBundle → AgentEdgeBundle
push_outgoing e b = record b { outgoing = b.outgoing ++ e ∷ [] }

abbrev pub to_id : AgentMailboxEdge → String
to_id e = e.to_spawn_id

abbrev pub from_id : AgentMailboxEdge → String
from_id e = e.from_spawn_id

-- `id IN (…)`
abbrev pub is_in : List String → String → Bool
is_in ids id = any (λ (k : String). str_eq k id) ids

-- `appendAgentEdgesForSpawnChunk`
unfoldable pub append_agent_edges_for_spawn_chunk :
    List AgentMailboxEdge → List String → Assoc AgentEdgeBundle → Assoc AgentEdgeBundle
append_agent_edges_for_spawn_chunk table chunk bundles =
    scan_into from_id push_outgoing (edges_from (is_in chunk) table)
      (scan_into to_id push_incoming (edges_to (is_in chunk) table) bundles)

-- The loop over the chunks of `n` ids. Each chunk takes an id at least, so that the fuel of one
-- round for each id is enough.
abbrev pub each_chunk :
    ℕ
    → ℕ
    → List AgentMailboxEdge
    → List String
    → Assoc AgentEdgeBundle
    → Option (Assoc AgentEdgeBundle)
each_chunk fuel n table [] bundles = some bundles
each_chunk zero n table (id ∷ ids) bundles = none
each_chunk (suc fuel) n table (id ∷ ids) bundles =
    each_chunk fuel n table (drop n (id ∷ ids))
      (append_agent_edges_for_spawn_chunk table (take n (id ∷ ids)) bundles)

abbrev pub chunk_size : ℕ
chunk_size = 500

-- `AgentEdgesForSpawnIDs`; `none` says that the fuel ran out.
unfoldable pub agent_edges_for_spawn_ids :
    List AgentMailboxEdge → List String → Option (Assoc AgentEdgeBundle)
agent_edges_for_spawn_ids table ids = each_chunk (length ids) chunk_size table ids []
