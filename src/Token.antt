-- ===== src/Token.antt =====
-- Swaps on Jupiter from the trader's accounts
-- (programs/grok_chain_intents/src/instructions/token.rs).
pub mod Route
pub mod Accounts
pub mod Trade
pub mod Handing
pub mod Steps
pub mod Outcome
