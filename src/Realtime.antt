-- ===== src/Realtime.antt =====
-- server/internal/realtime: events to the connections of one instance.
pub mod Hub
