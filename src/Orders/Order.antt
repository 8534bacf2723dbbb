-- ===== src/Orders/Order.antt =====
-- The `Order` aggregate: apps/orders/src/domain/order.ts, with its lines (order-line.ts), totals
-- (order-totals.ts) and facts (order-events.ts).
pub mod Line
pub mod Totals
pub mod Events
pub mod Aggregate
pub mod Commands
pub mod Snapshot
