-- ===== src/Subscription.antt =====
-- Recurring payments (programs/grok_chain_intents/src/instructions/subscription.rs).
pub mod Manage
pub mod Period
pub mod Clock
pub mod TokenAccount
pub mod Pay
pub mod Parts
pub mod Settlement
pub mod ExactlyOnce
pub mod Lifecycle
pub mod Removal
