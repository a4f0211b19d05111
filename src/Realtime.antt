-- ===== src/Realtime.antt =====
-- internal/realtime: the WebSocket panel's rate limiter and its hub.
pub mod Limiter
pub mod Hub
mod Tests
