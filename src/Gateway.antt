-- ===== src/Gateway.antt =====
-- The Gateway (apps/gateway).
pub mod Replay
