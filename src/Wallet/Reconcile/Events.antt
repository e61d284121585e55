-- ===== src/Wallet/Reconcile/Events.antt =====
-- The loops of the reconciler as one list of events: what the chain shows in a range of heights.
use web3_blitz.Base.{
  ℕ, zero, suc, ◌+◌, ◌≡◌, inl, inr, refl, true, false, none, some, List, [], ◌∷◌, ◌++◌, String,
  has_row, if◌then◌else◌, str_eq, Bool-cases, Option-cases,
}
use web3_blitz.Db.Models.{Chain, btc, eth, other, Deposit}
use web3_blitz.Wallet.Watch.Btc.{Vout, BtcTx}
use web3_blitz.Wallet.Watch.Eth.{EthTransfer}
use web3_blitz.Wallet.Reconcile.{Output, Scan, add_report, scan_error, compare_output}
use web3_blitz.Wallet.Reconcile.Btc.{
  BtcChain, btc_output, is_foreign, btc_vouts, btc_txs, btc_block, btc_blocks,
}
use web3_blitz.Wallet.Reconcile.Eth.{
  EthChain, eth_output, eth_transfer, eth_transfers, eth_block, eth_blocks,
}

-- A block that the node does not give, or an output that pays one of the addresses.
pub data Event : Type 0 where
  failure : String → Event
  output : Output → Event

abbrev label : Chain → String
label btc = "btc"
label eth = "eth"
label (other s) = s

abbrev pub step : Chain → List Deposit → Event → Scan → Scan
step c db (failure kind) s = add_report (scan_error (label c) kind) s
step c db (output o) s = compare_output c db o s

unfoldable pub run_events : Chain → List Deposit → List Event → Scan → Scan
run_events c db [] s = s
run_events c db (e ∷ es) s = run_events c db es (step c db e s)

run_events-append :
    (c : Chain) (db : List Deposit) (es fs : List Event) (s : Scan)
    → run_events c db (es ++ fs) s ≡ run_events c db fs (run_events c db es s)
unfolding run_events
run_events-append c db [] fs s = refl
run_events-append c db (e ∷ es) fs s = run_events-append c db es fs (step c db e s)

module _ (n : BtcChain) (addrs : List String) where
  unfoldable vout_events : String → ℕ → List Vout → List Event
  vout_events tx_id height [] = []
  vout_events tx_id height (v ∷ vs) =
      if is_foreign n addrs v
      then vout_events tx_id height vs
      else output (btc_output tx_id height v) ∷ vout_events tx_id height vs

  unfoldable btc_tx_events : ℕ → List BtcTx → List Event
  btc_tx_events height [] = []
  btc_tx_events height (t ∷ ts) = vout_events t.tx_id height t.vout ++ btc_tx_events height ts

  unfoldable btc_block_events : ℕ → List Event
  btc_block_events height = elim (n.block_hash height) [
    | none ↦ failure "get_block_hash" ∷ []
    | some hash ↦ elim (n.block_verbose hash) [
      | none ↦ failure "get_block" ∷ []
      | some txs ↦ btc_tx_events height txs
    ]
  ]

  -- The events of `count` blocks from `height` on.
  pub btc_events : ℕ → ℕ → List Event
  btc_events height zero = []
  btc_events height (suc count) = btc_block_events height ++ btc_events (height + 1) count

  module _ (db : List Deposit) where
    vouts_lem :
        (tx_id : String) (height : ℕ) (vs : List Vout) (s : Scan)
        → btc_vouts n db addrs tx_id height vs s ≡ run_events btc db (vout_events tx_id height vs) s
    unfolding btc_vouts vout_events run_events
    vouts_lem tx_id height [] s = refl
    vouts_lem tx_id height (v ∷ vs) s = elim (Bool-cases (is_foreign n addrs v)) [
      | inl e ↦ rw e (vouts_lem tx_id height vs s)
      | inr e ↦
          rw e (vouts_lem tx_id height vs (compare_output btc db (btc_output tx_id height v) s))
    ]

    txs_lem :
        (height : ℕ) (ts : List BtcTx) (s : Scan)
        → btc_txs n db addrs height ts s ≡ run_events btc db (btc_tx_events height ts) s
    unfolding btc_txs btc_tx_events
    txs_lem height [] s = unfold run_events in refl
    txs_lem height (t ∷ ts) s =
        rw
          (run_events-append btc db (vout_events t.tx_id height t.vout) (btc_tx_events height ts) s)
          (rw (vouts_lem t.tx_id height t.vout s) (txs_lem height ts _))

    block_lem :
        (height : ℕ) (s : Scan)
        → btc_block n db addrs height s ≡ run_events btc db (btc_block_events height) s
    unfolding btc_block btc_block_events
    block_lem height s = elim (Option-cases (n.block_hash height)) [
      | inl e ↦ rw (e, btc_block, btc_block_events) (unfold run_events in refl)
      | inr (hash, e) ↦ elim (Option-cases (n.block_verbose hash)) [
        | inl e' ↦ rw (e, e', btc_block, btc_block_events) (unfold run_events in refl)
        | inr (txs, e') ↦ rw (e, e', btc_block, btc_block_events) (txs_lem height txs s)
      ]
    ]

    -- A scan that the context does not end has gone through all events.
    pub btc_blocks_lem :
        (height count : ℕ) (s : Scan)
        → ((h : ℕ) → n.is_done h ≡ false)
        → btc_blocks n db addrs height count s
          ≡ (true, run_events btc db (btc_events height count) s)
    unfolding btc_blocks btc_events
    btc_blocks_lem height zero s h = unfold run_events in refl
    btc_blocks_lem height (suc count) s h = rw (h height) (
        rw (run_events-append btc db (btc_block_events height) (btc_events (height + 1) count) s)
          (rw (block_lem height s) (btc_blocks_lem (height + 1) count _ h)))

module _ (n : EthChain) (addrs : List String) where
  unfoldable transfer_events : ℕ → List EthTransfer → List Event
  transfer_events height [] = []
  transfer_events height (t ∷ ts) = elim t.to [
    | none ↦ transfer_events height ts
    | some to ↦
        if has_row (str_eq to) addrs
        then output (eth_output t.tx_id height to t.value) ∷ transfer_events height ts
        else transfer_events height ts
  ]

  unfoldable eth_block_events : ℕ → List Event
  eth_block_events height = elim (n.block_by_number height) [
    | none ↦ failure "get_block" ∷ []
    | some txs ↦ transfer_events height txs
  ]

  pub eth_events : ℕ → ℕ → List Event
  eth_events height zero = []
  eth_events height (suc count) = eth_block_events height ++ eth_events (height + 1) count

  module _ (db : List Deposit) where
    transfers_lem :
        (height : ℕ) (ts : List EthTransfer) (s : Scan)
        → eth_transfers n db addrs height ts s ≡ run_events eth db (transfer_events height ts) s
    unfolding eth_transfers eth_transfer transfer_events run_events
    transfers_lem height [] s = refl
    transfers_lem height (t ∷ ts) s = elim (Option-cases t.to) [
      | inl e ↦ rw e (transfers_lem height ts s)
      | inr (to, e) ↦ elim (Bool-cases (has_row (str_eq to) addrs)) [
        | inl e' ↦ rw e (
            rw e' (
              transfers_lem height ts
                (compare_output eth db (eth_output t.tx_id height to t.value) s)))
        | inr e' ↦ rw e (rw e' (transfers_lem height ts s))
      ]
    ]

    eth_block_lem :
        (height : ℕ) (s : Scan)
        → eth_block n db addrs height s ≡ run_events eth db (eth_block_events height) s
    unfolding eth_block eth_block_events
    eth_block_lem height s = elim (Option-cases (n.block_by_number height)) [
      | inl e ↦ rw (e, eth_block, eth_block_events) (unfold run_events in refl)
      | inr (txs, e) ↦ rw (e, eth_block, eth_block_events) (transfers_lem height txs s)
    ]

    pub eth_blocks_lem :
        (height count : ℕ) (s : Scan)
        → ((h : ℕ) → n.is_done h ≡ false)
        → eth_blocks n db addrs height count s
          ≡ (true, run_events eth db (eth_events height count) s)
    unfolding eth_blocks eth_events
    eth_blocks_lem height zero s h = unfold run_events in refl
    eth_blocks_lem height (suc count) s h = rw (h height) (
        rw (run_events-append eth db (eth_block_events height) (eth_events (height + 1) count) s)
          (rw (eth_block_lem height s) (eth_blocks_lem (height + 1) count _ h)))
