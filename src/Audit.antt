-- ===== src/Audit.antt =====
-- packages/core/src/audit: the signed, hash-chained record of every decision.
pub mod Record
pub mod Chain
pub mod Build
pub mod Attest
pub mod Checks
pub mod Verify
mod Tests
