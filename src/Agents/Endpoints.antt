-- ===== src/Agents/Endpoints.antt =====
-- internal/agents/read.go: the GET endpoints of the agent tables, their parameters and their bodies.
--
-- A row is sent without its `id`.
pub mod Mux
pub mod Access
pub mod Totals
pub mod Depth
use tracelab.Agents.Reads.{AgentEdgeBundle}
use tracelab.Agents.Tables.{
  AgentTokenUsage, AgentVerdict, AgentMailboxEdge, AgentEventRef, SpawnRow,
}
use tracelab.Prelude.{
  ℕ, zero, suc, ◌+◌, String, Bool, true, false, not, ◌&&◌, ◌||◌, Option, none, some, List, [], ◌∷◌,
  map, ℤ, pos, negsuc, add64, str_eq, if◌then◌else◌, ltb, leb, ◌==◌, is_positive, int_leb, Assoc,
  lookup, put, codes, atoi, text_length, text_take, text_any, unix_nano,
}

pub record SpawnWire : Type 0 where
  pub id : String
  pub parent_id : String
  pub skill : String
  pub started_at : ℤ
  pub ended_at : Option ℤ
  pub project : String
  pub session_ref : String

pub record SpawnsListResp : Type 0 where
  pub spawns : List SpawnWire
  pub total : ℕ
  pub limit : ℤ
  pub offset : ℤ

pub record TreeNodeWire : Type 0 where
  pub spawn : SpawnWire
  pub depth : ℕ

pub record TreeResp : Type 0 where
  pub root : String
  pub nodes : List TreeNodeWire

-- `TokenSourceSum`
pub record TokenSourceSum : Type 0 where
  pub input_tokens : ℤ
  pub output_tokens : ℤ
  pub cache_read : ℤ
  pub cache_write : ℤ
  pub row_count : ℕ

pub record TokenTotals : Type 0 where
  pub input_tokens : ℤ
  pub output_tokens : ℤ
  pub cache_read : ℤ
  pub cache_write : ℤ
  pub by_source : Assoc TokenSourceSum

-- `spawnRowToWire`
abbrev pub or_empty : Option String → String
or_empty none = ""
or_empty (some s) = s

abbrev pub spawn_row_to_wire : SpawnRow → SpawnWire
spawn_row_to_wire r = record {
  id = r.id;
  parent_id = or_empty r.parent_id;
  skill = r.skill;
  started_at = r.started_at;
  ended_at = r.ended_at;
  project = r.project;
  session_ref = or_empty r.session_ref;
}

-- `parseLimitParam`
abbrev limit_of : ℤ → ℤ → Option ℤ → ℤ
limit_of def max none = def
limit_of def max (some n) = if not (is_positive n) then def else if int_leb n max then n else max

unfoldable pub parse_limit_param : String → ℤ → ℤ → ℤ
unfolding atoi
parse_limit_param raw def max = if str_eq raw "" then def else limit_of def max (atoi (codes raw))

-- `parseOffsetParam`
abbrev offset_of : Option ℤ → ℤ
offset_of none = pos 0
offset_of (some (pos n)) = pos n
offset_of (some (negsuc n)) = pos 0

unfoldable pub parse_offset_param : String → ℤ
unfolding atoi
parse_offset_param raw = if str_eq raw "" then pos 0 else offset_of (atoi (codes raw))

-- `isValidSpawnIDFormat`
abbrev pub is_id_char : ℕ → Bool
is_id_char c =
    (leb b'0' c && leb c b'9')
    || (leb b'a' c && leb c b'z')
    || (leb b'A' c && leb c b'Z')
    || c == b'_'
    || c == b'-'

unfoldable pub is_valid_spawn_id_format : String → Bool
is_valid_spawn_id_format id =
    not (str_eq id "" || ltb 128 (text_length id)) && not (text_any (λ c. not (is_id_char c)) id)

-- The aggregate loop of `readTokens`.
abbrev pub no_tokens : TokenSourceSum
no_tokens = record {
  input_tokens = pos 0;
  output_tokens = pos 0;
  cache_read = pos 0;
  cache_write = pos 0;
  row_count = 0;
}

abbrev pub or_no_tokens : Option TokenSourceSum → TokenSourceSum
or_no_tokens none = no_tokens
or_no_tokens (some s) = s

abbrev pub add_row : AgentTokenUsage → TokenSourceSum → TokenSourceSum
add_row t s = record {
  input_tokens = add64 s.input_tokens t.input_tokens;
  output_tokens = add64 s.output_tokens t.output_tokens;
  cache_read = add64 s.cache_read t.cache_read;
  cache_write = add64 s.cache_write t.cache_write;
  row_count = s.row_count + 1;
}

abbrev pub add_tokens : AgentTokenUsage → TokenTotals → TokenTotals
add_tokens t totals = record {
  input_tokens = add64 totals.input_tokens t.input_tokens;
  output_tokens = add64 totals.output_tokens t.output_tokens;
  cache_read = add64 totals.cache_read t.cache_read;
  cache_write = add64 totals.cache_write t.cache_write;
  by_source =
      put t.source (add_row t (or_no_tokens (lookup t.source totals.by_source))) totals.by_source;
}

abbrev pub sum_tokens : TokenTotals → List AgentTokenUsage → TokenTotals
sum_tokens totals [] = totals
sum_tokens totals (t ∷ ts) = sum_tokens (add_tokens t totals) ts

unfoldable pub token_totals : List AgentTokenUsage → TokenTotals
token_totals rows =
    sum_tokens
      (record {
        input_tokens = pos 0;
        output_tokens = pos 0;
        cache_read = pos 0;
        cache_write = pos 0;
        by_source = [];
      })
      rows

-- The loop of `readTree` that finds the depth of each node from that of its parent.
abbrev pub next_depth : Option ℕ → ℕ
next_depth none = 0
next_depth (some d) = d + 1

abbrev pub parent_depth : Assoc ℕ → Option String → ℕ
parent_depth depths none = 0
parent_depth depths (some p) = next_depth (lookup p depths)

abbrev pub depth_of : String → Assoc ℕ → SpawnRow → ℕ
depth_of root depths r = if str_eq r.id root then 0 else parent_depth depths r.parent_id

abbrev pub tree_nodes : String → Assoc ℕ → List SpawnRow → List TreeNodeWire
tree_nodes root depths [] = []
tree_nodes root depths (r ∷ rs) =
    let d = depth_of root depths r in
    record { spawn = spawn_row_to_wire r; depth = d } ∷ tree_nodes root (put r.id d depths) rs
