-- ===== src/Wallet/Reconcile/Btc.antt =====
-- internal/wallet/reconcile/reconciler.go: `reconcileBTC`.
use web3_blitz.Base.{
  ℕ, zero, suc, ◌+◌, ◌-◌, Bool, true, false, not, ◌||◌, Option, none, some, List, [], ◌∷◌, String,
  str_eq, has_row, if◌then◌else◌,
}
use web3_blitz.Code.{internal}
use web3_blitz.Db.Models.{btc, Deposit}
use web3_blitz.Db.Deposits.{list_deposits_by_chain_and_height_range}
use web3_blitz.Effects.{World, Reply, ok, fail, try_read}
use web3_blitz.Money.{sprintf8}
use web3_blitz.Wallet.Watch.Btc.{Vout, BtcTx}
use web3_blitz.Wallet.Reconcile.{
  Output, Report, scan_error, Scan, add_report, compare_output, empty_scan, with_phantoms,
}

-- What bitcoind, btcutil and the context answer in one run; `is_done h` is a context that has ended
-- when the loop comes to the height h.
pub record BtcChain : Type 0 where
  pub info : Option ℕ
  pub block_hash : ℕ → Option String
  pub block_verbose : String → Option (List BtcTx)
  pub decode_address : String → Bool
  pub is_done : ℕ → Bool

abbrev pub btc_output : String → ℕ → Vout → Output
btc_output tx_id height v = record {
  tx_id = tx_id;
  address = v.address;
  amount = sprintf8 v.value;
  height = height;
}

-- An output that the loop leaves out.
abbrev pub is_foreign : BtcChain → List String → Vout → Bool
is_foreign n addrs v =
    str_eq v.address ""
    || not (has_row (str_eq v.address) addrs)
    || not (n.decode_address v.address)

module _ (n : BtcChain) (db : List Deposit) (addrs : List String) where
  unfoldable pub btc_vouts : String → ℕ → List Vout → Scan → Scan
  btc_vouts tx_id height [] s = s
  btc_vouts tx_id height (v ∷ vs) s =
      btc_vouts tx_id height vs
        (if is_foreign n addrs v then s else compare_output btc db (btc_output tx_id height v) s)

  unfoldable pub btc_txs : ℕ → List BtcTx → Scan → Scan
  btc_txs height [] s = s
  btc_txs height (t ∷ ts) s = btc_txs height ts (btc_vouts t.tx_id height t.vout s)

  unfoldable pub btc_block : ℕ → Scan → Scan
  btc_block height s = elim (n.block_hash height) [
    | none ↦ add_report (scan_error "btc" "get_block_hash") s
    | some hash ↦ elim (n.block_verbose hash) [
      | none ↦ add_report (scan_error "btc" "get_block") s
      | some txs ↦ btc_txs height txs s
    ]
  ]

  -- The loop over the heights, of which `count` are left; `false` when the context ended it.
  unfoldable pub btc_blocks : ℕ → ℕ → Scan → Bool × Scan
  btc_blocks height zero s = (true, s)
  btc_blocks height (suc count) s =
      let rest = btc_blocks (height + 1) count (btc_block height s) in
      if n.is_done height then (false, s) else rest

-- After the query for the rows of the range.
unfoldable pub reconcile_btc_rows :
    BtcChain → List String → ℕ → ℕ → Reply (List Deposit) × World → List Report × World
reconcile_btc_rows n addrs lo hi (fail c, w) = (scan_error "btc" "load_db" ∷ [], w)
reconcile_btc_rows n addrs lo hi (ok db, w) =
    (with_phantoms btc db (btc_blocks n db addrs lo (hi + 1 - lo) empty_scan), w)

-- After `GetBlockChainInfo`. A subtraction that stops at 0 is the one that is raised to 0.
unfoldable pub reconcile_btc_below :
    ℕ → BtcChain → List String → Option ℕ → World → List Report × World
reconcile_btc_below depth n addrs none w = (scan_error "btc" "get_info" ∷ [], w)
reconcile_btc_below depth n addrs (some hi) w =
    let lo = hi - depth in
    reconcile_btc_rows n addrs lo hi
      (try_read internal (list_deposits_by_chain_and_height_range btc lo hi) w)

-- `reconcileBTC`.
unfoldable pub reconcile_btc : ℕ → BtcChain → List String → World → List Report × World
reconcile_btc depth n addrs w = reconcile_btc_below depth n addrs n.info w
