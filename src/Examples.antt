-- ===== src/Examples.antt =====
-- Tests: the operations on concrete accounts.
mod Chain
mod Spending
mod Delegation
mod Payees
mod Billing
mod Terms
mod Tokens
mod Holding
pub mod Market
pub mod Swaps
pub mod Trading
pub mod Fees
pub mod Coins
pub mod Budget
