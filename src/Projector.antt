-- ===== src/Projector.antt =====
-- The Projector service (apps/projector/src): the read model of the orders' timelines.
pub mod Timeline
pub mod Facts
pub mod Rank
pub mod Summaries
pub mod Delta
pub mod Document
