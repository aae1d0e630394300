-- ===== src/SponsorFee.antt =====
-- The sponsorship fee and its burn
-- (programs/grok_chain_intents/src/instructions/sponsor_fee.rs).
pub mod Config
pub mod Burn
pub mod Bounds
pub mod Destruction
