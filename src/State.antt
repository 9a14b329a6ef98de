-- ===== src/State.antt =====
-- x/nvx/keeper/state.go: the accounts and the transactions.
pub mod Accounts
pub mod Balances
pub mod Keeper
pub mod Conservation
pub mod Authorization
pub mod Abuse
pub mod Storage
pub mod Genesis
pub mod Samples
mod Tests
