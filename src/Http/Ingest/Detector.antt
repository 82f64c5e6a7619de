-- ===== src/Http/Ingest/Detector.antt =====
-- internal/http/handlers.go, internal/crash/detect.go: the crash detection that POST /ingest calls.
use tracelab.Crash.Detect.{Detected, detect}
use tracelab.Crash.Fingerprint.{fingerprint}
use tracelab.Http.Ingest.{CrashDetector}
use tracelab.Prelude.{String, Option, none, some, Bytes}

abbrev stack_of : Option Detected → Option Bytes
stack_of none = none
stack_of (some found) = some found.normalized_stack

-- `crash.Detect` and `crash.Fingerprint` as the handler calls them. `digest` is the SHA-256 in
-- hexadecimal, and `text` the string of its digits.
abbrev pub crash_detector : (Bytes → Bytes) → (Bytes → String) → CrashDetector
crash_detector digest text = record {
  detect = λ source level msg. stack_of (detect msg);
  fingerprint = λ stack. text (fingerprint digest stack);
}
