-- ===== src/Runtime.antt =====
-- The Solana runtime and the Anchor framework, as far as the program uses them.
pub mod Address
pub mod World
pub mod Check
pub mod Monad
