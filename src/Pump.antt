-- ===== src/Pump.antt =====
-- Trading and creating coins on pump.fun
-- (programs/grok_chain_intents/src/instructions/pump.rs).
pub mod Encoding
pub mod Framing
pub mod Checks
pub mod Accounts
pub mod Trade
pub mod Slots
pub mod Steps
pub mod Sending
pub mod Outcome
