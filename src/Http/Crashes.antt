-- ===== src/Http/Crashes.antt =====
-- internal/http/handlers.go: GET /crashes.
use tracelab.Prelude.{
  ℕ, String, Bool, Option, none, some, List, map, ℤ, pos, str_eq, if◌then◌else◌, Bytes,
}
use tracelab.Http.Events.{Response, bad_request, internal_error, success, limit_param}
use tracelab.Store.Crashes.{crashes_by_session}
use tracelab.Store.Schema.{CrashRow, Db}

-- `crashView`
pub record CrashView : Type 0 where
  pub id : ℕ
  pub session_id : String
  pub ts : ℤ
  pub fingerprint : String
  pub stacktrace : Bytes
  pub count : ℕ

abbrev pub crash_view : CrashRow → CrashView
crash_view c = record {
  id = c.id;
  session_id = c.session_id;
  ts = c.ts;
  fingerprint = c.fingerprint;
  stacktrace = c.stacktrace;
  count = c.count;
}

-- `limit` is read as in GET /events: the default is 500 and the cap 5000 in both.
abbrev with_limit : Bool → Db → String → Option ℕ → Response (List CrashView)
with_limit io db session none = bad_request "invalid limit"
with_limit io db session (some limit) =
    if io
    then success (map crash_view (crashes_by_session db session (pos limit)))
    else internal_error

-- `listCrashes`, on the query parameters as given, empty for absent; `io` says that the query runs.
unfoldable pub list_crashes : Bool → Db → String → Bytes → Response (List CrashView)
list_crashes io db session limit =
    if str_eq session ""
    then bad_request "session required"
    else with_limit io db session (limit_param limit)
