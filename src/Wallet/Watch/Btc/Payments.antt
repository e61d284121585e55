-- ===== src/Wallet/Watch/Btc/Payments.antt =====
-- What a scan of the BTC watcher finds, said without its loops.
use web3_blitz.Base.{
  ℕ, zero, suc, ◌+◌, ◌-◌, ◌<◌, ◌≤◌, ◌≡◌, refl, ◌∙◌, sym, ap, not, ◌||◌, none, some, List, [], ◌∷◌,
  ◌++◌, String, str_eq, length, take, arith, Option-cases, inl, inr, if◌then◌else◌,
}
use web3_blitz.Wallet.Consume.{DepositRecord}
use web3_blitz.Wallet.Registry.{Registry, lookup}
use web3_blitz.Wallet.Watch.Queue.{queue_size, offer_all, offer_all_lem, offer_all-append}
use web3_blitz.Wallet.Watch.Btc.{
  Vout, BtcTx, BtcNode, BtcWatcher, deposit_record, process_vout, process_vouts, process_txs,
  process_block, process_blocks, scan_new_blocks,
}

module _ (n : BtcNode) (r : Registry) where
  abbrev vout_payment : ℕ → String → Vout → List DepositRecord
  vout_payment height tx v =
      if str_eq v.address "" || not (n.decode_address v.address)
      then []
      else elim (lookup v.address r) [
        | none ↦ []
        | some user ↦ deposit_record tx height user v ∷ []
      ]

  abbrev tx_payments : ℕ → String → List Vout → List DepositRecord
  tx_payments height tx [] = []
  tx_payments height tx (v ∷ vs) = vout_payment height tx v ++ tx_payments height tx vs

  abbrev txs_payments : ℕ → List BtcTx → List DepositRecord
  txs_payments height [] = []
  txs_payments height (t ∷ ts) = tx_payments height t.tx_id t.vout ++ txs_payments height ts

  -- The outputs of a block that pay a registered address; a block that the node does not return
  -- has none.
  abbrev pub block_payments : ℕ → List DepositRecord
  block_payments height = elim (n.block height) [ none ↦ [] | some txs ↦ txs_payments height txs ]

  -- Those of `count` blocks from `height` on.
  abbrev pub payments : ℕ → ℕ → List DepositRecord
  payments height zero = []
  payments height (suc count) = block_payments height ++ payments (height + 1) count

  vout_lem :
      (h : ℕ) (tx : String) (v : Vout) (q : List DepositRecord)
      → process_vout n r h tx v q ≡ offer_all (vout_payment h tx v) q
  unfolding process_vout offer_all
  vout_lem h tx v q = ground arith

  vouts_lem :
      (h : ℕ) (tx : String) (vs : List Vout) (q : List DepositRecord)
      → process_vouts n r h tx vs q ≡ offer_all (tx_payments h tx vs) q
  unfolding process_vouts offer_all
  vouts_lem h tx [] q = refl
  vouts_lem h tx (v ∷ vs) q =
      vouts_lem h tx vs (process_vout n r h tx v q)
      ∙ ap (offer_all (tx_payments h tx vs)) (vout_lem h tx v q)
      ∙ sym (offer_all-append (vout_payment h tx v) (tx_payments h tx vs) q)

  txs_lem :
      (h : ℕ) (ts : List BtcTx) (q : List DepositRecord)
      → process_txs n r h ts q ≡ offer_all (txs_payments h ts) q
  unfolding process_txs offer_all
  txs_lem h [] q = refl
  txs_lem h (t ∷ ts) q =
      txs_lem h ts (process_vouts n r h t.tx_id t.vout q)
      ∙ ap (offer_all (txs_payments h ts)) (vouts_lem h t.tx_id t.vout q)
      ∙ sym (offer_all-append (tx_payments h t.tx_id t.vout) (txs_payments h ts) q)

  block_lem :
      (h : ℕ) (q : List DepositRecord) → process_block n r h q ≡ offer_all (block_payments h) q
  unfolding process_block offer_all
  block_lem h q = elim (Option-cases (n.block h)) [
    | inl e ↦ ground arith
    | inr (ts, e) ↦ ground (arith, txs_lem h ts q)
  ]

  blocks_lem :
      (h count : ℕ) (q : List DepositRecord)
      → process_blocks n r h count q ≡ offer_all (payments h count) q
  unfolding process_blocks offer_all
  blocks_lem h zero q = refl
  blocks_lem h (suc count) q =
      blocks_lem (h + 1) count (process_block n r h q)
      ∙ ap (offer_all (payments (h + 1) count)) (block_lem h q)
      ∙ sym (offer_all-append (block_payments h) (payments (h + 1) count) q)

-- A scan that finds the chain higher than before looks at each height from the last one on once:
-- the channel then has what it had and, after that, the outputs of those blocks that pay a
-- registered address, up to a hundred records in all; what does not fit is dropped. The height
-- moves to the node's height also past blocks that the node did not return, which have given
-- nothing and are not looked at again.
pub scan_new_blocks_lem :
    (n : BtcNode) (r : Registry) (w : BtcWatcher) (current : ℕ)
    → length w.deposits ≤ queue_size
    → n.blocks ≡ some current
    → w.last_height < current
    → ((scan_new_blocks n r w).last_height ≡ current)
      × ((scan_new_blocks n r w).deposits
          ≡ take queue_size
              (w.deposits ++ payments n r (w.last_height + 1) (current - w.last_height)))
unfolding scan_new_blocks
scan_new_blocks_lem n r w current room e h =
    let found =
      blocks_lem n r (w.last_height + 1) (current - w.last_height) w.deposits
      ∙ offer_all_lem (payments n r (w.last_height + 1) (current - w.last_height)) w.deposits
          room in
    (ground arith, ground (arith, found))
