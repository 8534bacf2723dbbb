-- ===== src/Kernel.antt =====
-- The shared kernel's value objects (packages/shared-kernel/src/domain).
pub mod Money
pub mod Gln
pub mod Reference
pub mod MoneyText
pub mod Envelope
pub mod UniqueId
