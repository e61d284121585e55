-- ===== src/Api.antt =====
-- internal/api: the HTTP handlers.
pub mod Request
pub mod Auth
pub mod RateLimit
pub mod Access
pub mod Tokens
pub mod Mux
pub mod Admin
pub mod Wallets
pub mod Withdraw
pub mod Review
pub mod Ledger
