-- ===== src/Custodians.antt =====
-- The root's own instructions on the two accounts that hold lamports: the spend vault
-- (instructions/spend_vault.rs) and the paymaster (instructions/paymaster.rs).
pub mod Vault
pub mod Sponsor
pub mod Laws
