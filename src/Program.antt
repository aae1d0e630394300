-- ===== src/Program.antt =====
-- The program's instructions, as lib.rs dispatches them
-- (programs/grok_chain_intents/src/lib.rs).
pub mod Request
pub mod Dispatch
pub mod Senders
pub mod Guards
pub mod Authority
