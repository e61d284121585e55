-- ===== src/Wallet/Watch.antt =====
-- The watchers of the chains: internal/wallet/btc/watcher.go and internal/wallet/eth/watcher.go.
pub mod Btc
pub mod Eth
pub mod Queue
