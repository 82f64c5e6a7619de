-- ===== src/Http.antt =====
-- internal/http: the JSON API of the hub.
pub mod Events
pub mod Crashes
pub mod Sessions
pub mod Ingest
