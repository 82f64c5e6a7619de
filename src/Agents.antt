-- ===== src/Agents.antt =====
-- internal/agents, internal/store/agents.go: what agents report, and the tables that keep it.
pub mod Payload
pub mod Tables
pub mod Ingest
pub mod Spawns
pub mod Tree
pub mod Reads
pub mod Endpoints
pub mod Transcript
