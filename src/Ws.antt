-- ===== src/Ws.antt =====
-- internal/ws: the pub/sub layer behind GET /tail.
pub mod Hub
