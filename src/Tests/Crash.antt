-- ===== src/Tests/Crash.antt =====
-- internal/crash/detect.go at concrete inputs.
use tracelab.Crash.Detect.{java, go, detect, split_lines}
use tracelab.Crash.Fingerprint.{join, fingerprint, top_from, is_header_line}
use tracelab.Crash.Fingerprint.Stable.{fingerprint_noise}
use tracelab.Crash.Regex.{match_string, match_line, count_lines, replace_from}
use tracelab.Http.Ingest.{IngestEvent, ingest, detect_and_upsert_crashes}
use tracelab.Http.Ingest.Detector.{crash_detector}
use tracelab.Store.Crashes.{upsert_crash}
use tracelab.Store.Events.{insert_events, insert_rows}
use tracelab.Store.Schema.{CrashRow, empty}
use tracelab.Prelude.{
  ℕ, String, [], bytes_eq, if◌then◌else◌, pos, map, true, ◌≡◌, refl, none, some, ◌∷◌, ◌++◌, Bytes,
  codes,
}

abbrev frame : Bytes
frame = codes "  at a.B.c(B.java:7)"

abbrev normal_frame : Bytes
normal_frame = codes "at a.B.c(B.java:LINE)"

-- One frame is not enough for Java, and two are; the line numbers go.
java_one : detect frame ≡ none
unfolding detect match_line count_lines match_string
java_one = refl

java_two :
    detect (frame ++ 10 ∷ frame)
    ≡ some (record {
      language = java;
      normalized_stack = normal_frame ++ 10 ∷ codes "  at a.B.c(B.java:LINE)";
    })
unfolding detect match_line count_lines replace_from match_string
java_two = refl

-- The head of a Rust panic alone is no crash, and with the note of the runtime it is.
abbrev rust_head : Bytes
rust_head = codes "thread 'm' panicked at x"

rust_alone : detect rust_head ≡ none
unfolding detect match_line match_string
rust_alone = refl

go_panic :
    detect (codes "panic: x" ++ 10 ∷ 9 ∷ codes "/a/b.go:42 +0x1f")
    ≡ some (record {
      language = go;
      normalized_stack = codes "panic: x" ++ 10 ∷ 9 ∷ codes "/a/b.go:LINE +0xOFF";
    })
unfolding detect match_line match_string replace_from
go_panic = refl

abbrev cause : Bytes
cause = codes "Caused by: java.lang.Error: boom"

fingerprint_noise_example :
    fingerprint (λ s. s) (join (cause ∷ normal_frame ∷ []))
    ≡ fingerprint (λ s. s) (join (normal_frame ∷ []))
unfolding is_header_line top_from split_lines
fingerprint_noise_example =
    fingerprint_noise (λ s. s) [] (normal_frame ∷ []) cause tt refl (refl, tt) refl (λ h. cc h)

-- A panic that is posted twice, once with another message and line, is one crash.
abbrev panic_text : Bytes → Bytes → Bytes
panic_text message line = codes "panic: " ++ (message ++ 10 ∷ 9 ∷ (codes "/a.go:" ++ line))

abbrev posted_panic : Bytes → Bytes → IngestEvent
posted_panic message line = record {
  ts = pos 0;
  source = "app";
  level = "error";
  msg = panic_text message line;
  meta = "";
}

abbrev named : Bytes → String
named s = if bytes_eq s (codes "/a.go:LINE") then "f" else "g"

one_crash :
    map {B = String × ℕ}
      (λ (c : CrashRow). (c.fingerprint, c.count))
      (ingest
        (crash_detector (λ s. s) named)
        true
        (λ n. true)
        (λ n. pos n)
        (λ k n. true)
        (λ k. pos k)
        "s"
        (posted_panic (codes "x") (codes "4") ∷ posted_panic (codes "y") (codes "55") ∷ [])
        (record empty {
          sessions = record { id = "s"; label = ""; started_at = pos 1; ended_at = none } ∷ [];
        })).db.crashes
    ≡ ("f", 2) ∷ []
unfolding ingest insert_events insert_rows detect_and_upsert_crashes upsert_crash detect fingerprint
    top_from is_header_line split_lines match_line match_string replace_from
one_crash = refl
