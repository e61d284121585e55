-- ===== src/Wallet/Reconcile/Eth.antt =====
-- internal/wallet/reconcile/reconciler.go: `reconcileETH`.
use web3_blitz.Base.{
  ℕ, zero, suc, ◌+◌, ◌-◌, Bool, true, false, Option, none, some, List, [], ◌∷◌, String, ltb, str_eq,
  has_row, select, if◌then◌else◌, map,
}
use web3_blitz.Code.{internal}
use web3_blitz.Db.Models.{eth, Deposit}
use web3_blitz.Db.Deposits.{list_deposits_by_chain_and_height_range}
use web3_blitz.Effects.{World, Reply, ok, fail, try_read}
use web3_blitz.Money.{sprintf8}
use web3_blitz.Wallet.Watch.Eth.{EthTransfer}
use web3_blitz.Wallet.Reconcile.{
  Output, Report, scan_error, Scan, add_report, compare_output, empty_scan, with_phantoms, if_any,
}

-- What geth, go-ethereum and the context answer; an address is the text of its `Hex()`.
pub record EthChain : Type 0 where
  pub header : Option ℕ
  pub block_by_number : ℕ → Option (List EthTransfer)
  pub is_hex_address : String → Bool
  pub hex_to_address : String → String
  pub is_done : ℕ → Bool

abbrev pub eth_output : String → ℕ → String → ℕ → Output
eth_output tx_id height to value = record {
  tx_id = tx_id;
  address = to;
  amount = sprintf8 value;
  height = height;
}

-- The keys of `addrSet`.
unfoldable pub address_set : EthChain → List String → List String
address_set n addrs = map n.hex_to_address (select n.is_hex_address addrs)

module _ (n : EthChain) (db : List Deposit) (addrs : List String) where
  unfoldable pub eth_transfer : ℕ → EthTransfer → Scan → Scan
  eth_transfer height t s = elim t.to [
    | none ↦ s
    | some to ↦
        if has_row (str_eq to) addrs
        then compare_output eth db (eth_output t.tx_id height to t.value) s
        else s
  ]

  unfoldable pub eth_transfers : ℕ → List EthTransfer → Scan → Scan
  eth_transfers height [] s = s
  eth_transfers height (t ∷ ts) s = eth_transfers height ts (eth_transfer height t s)

  unfoldable pub eth_block : ℕ → Scan → Scan
  eth_block height s = elim (n.block_by_number height) [
    | none ↦ add_report (scan_error "eth" "get_block") s
    | some txs ↦ eth_transfers height txs s
  ]

  unfoldable pub eth_blocks : ℕ → ℕ → Scan → Bool × Scan
  eth_blocks height zero s = (true, s)
  eth_blocks height (suc count) s =
      let rest = eth_blocks (height + 1) count (eth_block height s) in
      if n.is_done height then (false, s) else rest

unfoldable pub reconcile_eth_rows :
    EthChain → List String → ℕ → ℕ → Reply (List Deposit) × World → List Report × World
reconcile_eth_rows n addrs lo hi (fail c, w) = (scan_error "eth" "load_db" ∷ [], w)
reconcile_eth_rows n addrs lo hi (ok db, w) =
    (with_phantoms eth db (eth_blocks n db addrs lo (hi + 1 - lo) empty_scan), w)

-- After `HeaderByNumber`.
unfoldable pub reconcile_eth_below :
    ℕ → EthChain → List String → Option ℕ → World → List Report × World
reconcile_eth_below depth n addrs none w = (scan_error "eth" "get_header" ∷ [], w)
reconcile_eth_below depth n addrs (some hi) w =
    let lo = if ltb depth hi then hi - depth else 0 in
    reconcile_eth_rows n addrs lo hi
      (try_read internal (list_deposits_by_chain_and_height_range eth lo hi) w)

-- `reconcileETH`.
unfoldable pub reconcile_eth : ℕ → EthChain → List String → World → List Report × World
reconcile_eth depth n addrs w =
    let set = address_set n addrs in if_any set (reconcile_eth_below depth n set n.header) w
