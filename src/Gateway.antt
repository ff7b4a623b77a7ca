-- ===== src/Gateway.antt =====
-- packages/gateway/src: what the server adds to the core, rate limits and the turns of a conversation.
pub mod Auth
pub mod Click
pub mod Retention
pub mod RateLimit
pub mod Store
pub mod Evaluate
mod Tests
