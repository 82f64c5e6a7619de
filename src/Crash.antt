-- ===== src/Crash.antt =====
-- internal/crash/detect.go: which log messages are stack traces, and what tells one crash from another.
pub mod Regex
pub mod Patterns
pub mod Detect
pub mod Fingerprint
