-- ===== src/Intents.antt =====
-- The intents of an agent that spend SOL under CORE's grant.
pub mod Pay
pub mod Swap
pub mod Deploy
pub mod Call
pub mod Effects
pub mod Balances
pub mod Ledger
pub mod Settlement
pub mod Refusals
pub mod Isolation
