-- ===== src/Wallet.antt =====
-- internal/wallet: the hot wallets.
pub mod Level
pub mod Node
pub mod Withdraw
pub mod Consume
pub mod Registry
pub mod Watch
pub mod Sweep
pub mod Address
pub mod Rotation
pub mod Confirm
pub mod Pipeline
pub mod Reconcile
pub mod Election
pub mod Seed
pub mod Hd
pub mod Clients
