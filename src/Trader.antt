-- ===== src/Trader.antt =====
-- The trader, a system account of the program's that trades on pump.fun and Jupiter
-- (programs/grok_chain_intents/src/instructions/pump_trader.rs).
pub mod Manage
pub mod Sweep
pub mod Withdrawal
pub mod Funding
