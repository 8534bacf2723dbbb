-- ===== src/Orders.antt =====
-- The Orders service: its domain (apps/orders/src/domain) and its saga (apps/orders/src/application).
pub mod Status
pub mod Transitions
pub mod Order
