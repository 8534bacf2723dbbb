-- ===== src/Saga.antt =====
-- The saga of the Orders service (apps/orders/src/application).
pub mod Steps
pub mod Commands
pub mod Store
pub mod Handler
pub mod Dispatch
pub mod Sweep
pub mod Cancel
