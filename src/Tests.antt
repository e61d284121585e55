-- ===== src/Tests.antt =====
-- The theorems at concrete inputs, by the part that they are about.
pub mod Data
mod Withdrawals
mod Reviews
mod Histories
mod Deposits
mod Accounts
mod Clients
mod Chains
mod Routes
mod Codegen
mod Outside
mod Reconciled
mod Loops
mod Tokens
