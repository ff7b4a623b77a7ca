-- ===== src/Demand.antt =====
-- packages/core/src/demand: which creative a turn carries.
pub mod Exclusions
pub mod Ranking
pub mod Match
pub mod Mediate
pub mod Affiliate
pub mod Deliverability
mod Tests
