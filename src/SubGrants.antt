-- ===== src/SubGrants.antt =====
-- Sub-grants: an agent delegates part of its budget to another agent
-- (programs/grok_chain_intents/src/instructions/sub_grant.rs).
pub mod Issue
pub mod Manage
pub mod Chain
pub mod Walk
pub mod Attenuation
pub mod Narrowing
pub mod Tree
pub mod Steps
pub mod History
