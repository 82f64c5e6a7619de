-- ===== src/Lib.antt =====
-- Tracelab: a model of the hub that collects log events, crashes and agent reports, and its proofs.
--
-- The program. `cmd/hub` starts one process: an HTTP server (`internal/http`, `internal/agents`)
-- that writes what clients send to SQLite (`internal/store`) and gives each log event to an
-- in-memory hub (`internal/ws`), from which websocket clients read a live tail. A manager
-- (`internal/adb/manager.go`) runs one bridge for each Android device; a bridge
-- (`internal/adb/bridge.go`) reads logcat, writes its lines in batches to the store and gives each
-- to the hub at once.
--
-- The files.
--   Prelude: the native numbers, lists, signed integers, times, bytes, association lists and
--     `strconv.Atoi`, which all the others use.
--   Ws/Hub: `internal/ws/hub.go`. `Hub` is the struct with its channels on a heap; `subscribe`,
--     `unsubscribe`, `publish` and `close` are the methods, each as the part under the mutex.
--     Ws/Hub/Steps lists what goroutines do, one at a time, so that a run of `exec` is an
--     interleaving; Delivery, Invariant, Safety and Shutdown hold the proofs.
--   Store: `internal/store/sqlite.go` and the migrations. Schema has the rows and the tables;
--     Events is `InsertEvents` and `EventsSince`, Events/Recent `RecentEvents`; Crashes is
--     `UpsertCrash` and `CrashesBySession`, Crashes/Listing `ListCrashes`, `CountCrashes` and
--     `CrashByID`, Crashes/Owners `ListSessionIDsWithCrashes`; Sessions is `CreateSession`,
--     `EndSession`, `SessionByID` and the handler `sessionEnd`, Sessions/Listing `ListSessions`,
--     `ListSessionsWithCounts` and `CountSessions`, with LIKE in Sessions/Like, and Sessions/Ids is
--     `newSessionID`; Query and Paging have what the SELECT statements share.
--   Adb/Bridge: `internal/adb/bridge.go`. `pump` works on the list of what `select` got; `run_once`
--     and `run` (Adb/Bridge/Loop) on what the store, the subprocess and the context did in each
--     round. What the bridge asks of them is the list of its effects.
--   Adb/Manager: `internal/adb/manager.go`, with its goroutines on a heap and the critical sections
--     of `Start`, `Stop`, `Close` and of the goroutine's end as steps.
--   Adb/Devices: `internal/adb/adb.go`: `parseDeviceLine`, `extractState`, `isKeyValueToken`, from the
--     fields of a row on, and, in Devices/Listing, `parseDevices` from the lines on. Adb/Logcat has
--     the record of a logcat line, and Logcat/Parse is `parseLogcatLine`, where the reading of the
--     time stamp and `strings.TrimSpace` are parameters.
--   Http: `internal/http/handlers.go`: `ingest` with `detectAndUpsertCrashes` (Http/Ingest, where
--     crash detection is an interface, filled in Ingest/Detector), `listEvents`, `listCrashes`,
--     `sessionStart` and `listSessions`.
--   Crash: `internal/crash/detect.go`. Regex matches a regular expression with the preference of Go's
--     `regexp`; Patterns has the expressions, Detect `Detect` with its tests and normal forms, and
--     Fingerprint `Fingerprint` and `topFrames`, where the hexadecimal SHA-256 is a parameter.
--   Agents: `internal/agents/payload.go` (`validate`), `internal/agents/handler.go` (`persist`,
--     `Ingest`) and `internal/store/agents.go`: the inserts (Agents/Tables), the listing (Spawns), the
--     tree (Agents/Tree) and the reads by spawn and in batches (Agents/Reads).
--   Agents/Transcript: `internal/agents/transcript.go`. Transcript/Parse is the parser of a line;
--     Transcript/Persist has `persistEvent` and `processLine`, Transcript/Tail `tailFile`, `tickOnce`
--     and the ticks of `Run`. Linked, Replay, Tail/Growth and Tail/Offsets hold the proofs.
--   Agents/Endpoints: `internal/agents/read.go`: parameters, bodies, and, in Endpoints/Mux, the
--     handlers and `AgentsReadMux`.
--   Tests: runs at concrete inputs.
--
-- Conventions. Ids, labels and enumerations are native strings; text that the program takes apart
-- is a list of bytes, but for the ids, paths and parameters of transcripts and of the agents'
-- endpoints: these are strings whose characters stand for bytes. The text of a crash is a list of
-- code points. A time is the zero time or an instant in nanoseconds, and `time.Now()` is an
-- argument. A table is the list of its rows in the order of their rowids. SQLite is a parameter: a
-- function or a flag says which calls of the engine fail, and the meaning of the SQL (foreign keys,
-- CHECK, UNIQUE, INSERT OR IGNORE, ORDER BY, LIMIT and OFFSET, transactions) is written out. Rows
-- that an ORDER BY leaves equal keep the order of the table; for the sessions by their number of
-- events the order of ties is a parameter, the same in each request. The reads of the store are for
-- an engine that answers; the handlers say what they do if it does not. The UNIQUE index on
-- `crashes` never refuses a row, since `UpsertCrash` looks for one first. Log lines are left out,
-- but for the entries that the transcript bridge makes of its errors. A Go panic is a value,
-- `panic` or `none`.
--
-- Bounds. The subscriber ids of the hub wrap at 2^64, as in the source, so that a run is taken with
-- fewer than 2^64 actions: beyond that an id may be given out twice. The client that follows the
-- event cursor runs on fuel, one request for each event. The walk over a tree of spawns has fuel
-- for the root and for each row of the project, and the loop over chunks of ids for each id. The
-- star of a regular expression has fuel for each character left, and a replacement for each
-- character of the text. Ids of rows and counters of rows are natural numbers: their 63 bits are
-- not used up, nor are those of the counter of attempts in `Run`.
--
-- Not modelled. JSON, HTTP routing outside `AgentsReadMux`, websocket and subprocess I/O, the
-- migrations' runner, the HTTP client, the dashboard, configuration and the commands; nor the
-- splitting of adb's output into lines and of a row into its fields, and the walk over the
-- directories of the transcripts, whose results are given.
pub mod Prelude
pub mod Ws
pub mod Store
pub mod Adb
pub mod Http
pub mod Crash
pub mod Agents
pub mod Tests
