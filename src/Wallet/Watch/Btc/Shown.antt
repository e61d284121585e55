-- ===== src/Wallet/Watch/Btc/Shown.antt =====
-- Where the records of the BTC watcher come from.
use web3_blitz.Base.{
  ℕ, zero, suc, ◌+◌, ◌≡◌, refl, inl, inr, not, ◌||◌, some, List, [], ◌∷◌, str_eq, ltb, All, Has,
  Bool-cases, Option-cases,
}
use web3_blitz.Wallet.Consume.{DepositRecord}
use web3_blitz.Wallet.Registry.{Registry, lookup}
use web3_blitz.Wallet.Watch.Queue.{offer-All}
use web3_blitz.Wallet.Watch.Btc.{
  Vout, BtcTx, BtcNode, BtcWatcher, deposit_record, process_vout, process_vouts, process_txs,
  process_block, process_blocks, scan_new_blocks,
}

-- The node has shown the payment: an output of a transaction in the block at the record's height, to
-- an address that is registered for the record's user.
pub record IsBtcPayment (n : BtcNode) (r : Registry) (d : DepositRecord) : Type 0 where
  pub height : ℕ
  pub txs : List BtcTx
  pub tx : BtcTx
  pub vout : Vout
  pub user : ℕ
  pub block : n.block height ≡ some txs
  pub in_block : Has tx txs
  in_tx : Has vout tx.vout
  pub registered : lookup vout.address r ≡ some user
  pub same : d ≡ deposit_record tx.tx_id height user vout

module _ (n : BtcNode) (r : Registry) (P : DepositRecord → Type 0)
    (shown : (d : DepositRecord) → IsBtcPayment n r d → P d) where
  module _ (height : ℕ) (txs : List BtcTx) (block : n.block height ≡ some txs) where
    vout-All :
        (t : BtcTx) (v : Vout) (q : List DepositRecord)
        → Has t txs
        → Has v t.vout
        → All P q
        → All P (process_vout n r height t.tx_id v q)
    unfolding process_vout
    vout-All t v q ht hv h =
        elim (Bool-cases (str_eq v.address "" || not (n.decode_address v.address))) [
          | inl e ↦ rw (e, process_vout) h
          | inr e ↦ elim (Option-cases (lookup v.address r)) [
            | inl f ↦ rw (e, f, process_vout) h
            | inr (user, f) ↦
                rw (e, f, process_vout)
                  (let d = deposit_record t.tx_id height user v in
                    offer-All P d q
                      (shown d (record {
                        height = height;
                        txs = txs;
                        tx = t;
                        vout = v;
                        user = user;
                        block = block;
                        in_block = ht;
                        in_tx = hv;
                        registered = f;
                        same = refl;
                      }))
                      h)
          ]
        ]

    vouts-All :
        (t : BtcTx) (vs : List Vout) (q : List DepositRecord)
        → Has t txs
        → ((v : Vout) → Has v vs → Has v t.vout)
        → All P q
        → All P (process_vouts n r height t.tx_id vs q)
    unfolding process_vouts
    vouts-All t [] q ht hv h = h
    vouts-All t (v ∷ vs) q ht hv h =
        vouts-All t vs (process_vout n r height t.tx_id v q) ht (λ u k. hv u (inr k))
          (vout-All t v q ht (hv v (inl refl)) h)

    txs-All :
        (ts : List BtcTx) (q : List DepositRecord)
        → ((t : BtcTx) → Has t ts → Has t txs)
        → All P q
        → All P (process_txs n r height ts q)
    unfolding process_txs
    txs-All [] q ht h = h
    txs-All (t ∷ ts) q ht h =
        txs-All ts (process_vouts n r height t.tx_id t.vout q) (λ u k. ht u (inr k))
          (vouts-All t t.vout q (ht t (inl refl)) (λ v k. k) h)

  block-All : (height : ℕ) (q : List DepositRecord) → All P q → All P (process_block n r height q)
  unfolding process_block
  block-All height q h = elim (Option-cases (n.block height)) [
    | inl e ↦ rw (e, process_block) h
    | inr (txs, e) ↦ rw (e, process_block) (txs-All height txs e txs q (λ t k. k) h)
  ]

  blocks-All :
      (height count : ℕ) (q : List DepositRecord)
      → All P q
      → All P (process_blocks n r height count q)
  unfolding process_blocks
  blocks-All height zero q h = h
  blocks-All height (suc count) q h =
      blocks-All (height + 1) count (process_block n r height q) (block-All height q h)

  -- A scan adds only payments that the node has shown.
  pub scan_new_blocks-All :
      (w : BtcWatcher) → All P w.deposits → All P (scan_new_blocks n r w).deposits
  unfolding scan_new_blocks
  scan_new_blocks-All w h = elim (Option-cases n.blocks) [
    | inl e ↦ rw (e, scan_new_blocks) h
    | inr (current, e) ↦ elim (Bool-cases (ltb w.last_height current)) [
      | inl f ↦ rw (e, f, scan_new_blocks) (blocks-All _ _ w.deposits h)
      | inr f ↦ rw (e, f, scan_new_blocks) h
    ]
  ]
