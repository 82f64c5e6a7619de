-- ===== src/Http/Events.antt =====
-- internal/http/handlers.go: GET /events.
pub mod Paging
pub mod Answers
use tracelab.Prelude.{
  ℕ, String, Bool, true, false, Option, none, some, List, [], ◌∷◌, map, ℤ, pos, negsuc, leb, ltb,
  ◌==◌, str_eq, if◌then◌else◌, Bytes, atoi,
}
use tracelab.Store.Events.{events_since}
use tracelab.Store.Schema.{EventRow, Db}

-- A JSON response: an error with its status, or a body.
pub data Response {ℓ} (A : Type ℓ) : Type ℓ where
  bad_request : String → Response A
  internal_error : Response A
  success : A → Response A

abbrev pub events_default_limit : ℕ
events_default_limit = 500

abbrev pub events_max_limit : ℕ
events_max_limit = 5000

-- `eventView`; `meta` is empty for NULL.
pub record EventView : Type 0 where
  pub seq_id : ℕ
  pub session_id : String
  pub ts : ℤ
  pub source : String
  pub level : String
  pub msg : Bytes
  pub meta : String

-- `listEventsResp`
pub record ListEventsResp : Type 0 where
  pub events : List EventView
  pub next_since_seq : ℕ

abbrev meta_of : Option String → String
meta_of none = ""
meta_of (some m) = m

abbrev pub event_view : EventRow → EventView
event_view r = record {
  seq_id = r.id;
  session_id = r.session_id;
  ts = r.ts;
  source = r.source;
  level = r.level;
  msg = r.msg;
  meta = meta_of r.meta;
}

-- `if e.ID > nextSinceSeq { nextSinceSeq = e.ID }`, over the rows.
abbrev pub next_cursor : ℕ → List EventRow → ℕ
next_cursor since [] = since
next_cursor since (r ∷ rs) = next_cursor (if ltb since r.id then r.id else since) rs

-- `since_seq`: absent, or a number >= 0; `none` for a bad one.
abbrev parsed_since : Option ℤ → Option ℕ
parsed_since none = none
parsed_since (some (pos n)) = some n
parsed_since (some (negsuc n)) = none

unfoldable pub since_param : Bytes → Option ℕ
since_param [] = some 0
since_param (c ∷ cs) = parsed_since (atoi (c ∷ cs))

-- `limit`: absent, or a number > 0, cut to the cap; `none` for a bad one.
abbrev pub parsed_limit : Option ℤ → Option ℕ
parsed_limit none = none
parsed_limit (some (pos n)) =
    if n == 0 then none else if ltb events_max_limit n then some events_max_limit else some n
parsed_limit (some (negsuc n)) = none

unfoldable pub limit_param : Bytes → Option ℕ
limit_param [] = some events_default_limit
limit_param (c ∷ cs) = parsed_limit (atoi (c ∷ cs))

-- The answer to a valid request.
unfoldable pub event_page : Db → String → ℕ → ℕ → ListEventsResp
event_page db session since limit =
    let rows = events_since db session since (pos limit) in
    record { events = map event_view rows; next_since_seq = next_cursor since rows }

abbrev pub with_limit : Bool → Db → String → ℕ → Option ℕ → Response ListEventsResp
with_limit io db session since none = bad_request "invalid limit"
with_limit io db session since (some limit) =
    if io then success (event_page db session since limit) else internal_error

abbrev pub with_since : Bool → Db → String → Option ℕ → Bytes → Response ListEventsResp
with_since io db session none limit = bad_request "invalid since_seq"
with_since io db session (some since) limit = with_limit io db session since (limit_param limit)

-- `listEvents`, on the query parameters as given, empty for absent; `io` says that the query runs.
unfoldable pub list_events : Bool → Db → String → Bytes → Bytes → Response ListEventsResp
list_events io db session since limit =
    if str_eq session ""
    then bad_request "session required"
    else with_since io db session (since_param since) limit
