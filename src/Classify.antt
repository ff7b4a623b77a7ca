-- ===== src/Classify.antt =====
-- packages/core/src/classify: the two-stage classifier and its cache.
pub mod Cache
pub mod Rules
pub mod Merge
pub mod Prepare
pub mod Output
pub mod Run
mod Tests
