-- ===== src/Adb/Logcat.antt =====
-- internal/adb/adb.go and internal/adb/bridge.go: a logcat record and its priority.
pub mod Parse
use tracelab.Prelude.{ℕ, String, ◌||◌, Option, none, some, ℤ, ◌==◌, if◌then◌else◌, Time, Bytes}

-- `LogcatLine`; `level` is the rune of the priority.
pub record LogcatLine : Type 0 where
  pub timestamp : Time
  pub pid : ℤ
  pub tid : ℤ
  pub level : ℕ
  pub tag : Bytes
  pub message : Bytes

-- `mapLogcatLevel`; `none` for ok = false.
unfoldable pub map_logcat_level : ℕ → Option String
map_logcat_level level =
    if level == b'V' || level == b'D'
    then some "debug"
    else if level == b'I'
    then some "info"
    else if level == b'W'
    then some "warn"
    else if level == b'E' || level == b'F'
    then some "error"
    else none
