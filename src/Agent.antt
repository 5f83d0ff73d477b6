-- ===== src/Agent.antt =====
-- cmd/agent: the computer that is controlled.
pub mod Input
pub mod Tokens
pub mod Session
