-- ===== src/Policy.antt =====
-- packages/core/src/policy: the rules that decide whether a turn may carry an ad.
pub mod Regions
pub mod Caps
pub mod Evaluate
pub mod Merge
mod Tests
