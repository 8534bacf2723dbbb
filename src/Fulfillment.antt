-- ===== src/Fulfillment.antt =====
-- The Fulfillment service's domain (apps/fulfillment/src/domain).
pub mod Status
pub mod Facts
pub mod StockItem
pub mod OrderStock
pub mod Despatch
