-- ===== src/Wallet/Watch/Eth/Shown.antt =====
-- Where the records of the ETH watcher come from.
use web3_blitz.Base.{
  ℕ, zero, suc, ◌+◌, ◌≡◌, refl, inl, inr, Bool, true, false, some, List, [], ◌∷◌, String, ltb,
  arith, All, Has, Bool-cases, Option-cases,
}
use web3_blitz.Wallet.Consume.{DepositRecord}
use web3_blitz.Wallet.Registry.{Registry}
use web3_blitz.Wallet.Watch.Queue.{offer-All}
use web3_blitz.Wallet.Watch.Eth.{
  EthTransfer, EthBlock, EthNode, EthWatcher, eth_deposit, lookup_either, process_transfer,
  process_transfers, is_reorg, roll_back, process_eth_block, or_stop, process_eth_blocks, at_height,
  scan_eth_blocks,
}

-- The node has shown the payment: a transaction in the block at the record's height, to an address
-- that is registered for the record's user.
pub record IsEthPayment (n : EthNode) (r : Registry) (d : DepositRecord) : Type 0 where
  pub height : ℕ
  pub block : EthBlock
  pub tx : EthTransfer
  pub to : String
  pub user : ℕ
  pub found : n.block height ≡ some block
  pub in_block : Has tx block.transactions
  pub pays : tx.to ≡ some to
  pub registered : lookup_either n r to ≡ some user
  pub same : d ≡ eth_deposit tx.tx_id height user to tx.value

module _ (n : EthNode) (r : Registry) (P : DepositRecord → Type 0)
    (shown : (d : DepositRecord) → IsEthPayment n r d → P d) where
  module _ (height : ℕ) (b : EthBlock) (found : n.block height ≡ some b) where
    transfer-All :
        (t : EthTransfer) (q : List DepositRecord)
        → Has t b.transactions
        → All P q
        → All P (process_transfer n r height t q)
    unfolding process_transfer
    transfer-All t q ht h = elim (Option-cases t.to) [
      | inl e ↦ rw (e, process_transfer) h
      | inr (to, e) ↦ elim (Option-cases (lookup_either n r to)) [
        | inl f ↦ rw (e, f, process_transfer) h
        | inr (user, f) ↦
            rw (e, f, process_transfer)
              (let d = eth_deposit t.tx_id height user to t.value in
                offer-All P d q
                  (shown d (record {
                    height = height;
                    block = b;
                    tx = t;
                    to = to;
                    user = user;
                    found = found;
                    in_block = ht;
                    pays = e;
                    registered = f;
                    same = refl;
                  }))
                  h)
      ]
    ]

    transfers-All :
        (ts : List EthTransfer) (q : List DepositRecord)
        → ((t : EthTransfer) → Has t ts → Has t b.transactions)
        → All P q
        → All P (process_transfers n r height ts q)
    unfolding process_transfers
    transfers-All [] q ht h = h
    transfers-All (t ∷ ts) q ht h =
        transfers-All ts (process_transfer n r height t q) (λ u k. ht u (inr k))
          (transfer-All t q (ht t (inl refl)) h)

  roll_back-deposits : (height : ℕ) (w : EthWatcher) → (roll_back n height w).deposits ≡ w.deposits
  unfolding roll_back
  roll_back-deposits height w = ground arith

  block-All :
      (height : ℕ) (w : EthWatcher)
      → All P w.deposits
      → All P (process_eth_block n r height w).1.deposits
  unfolding process_eth_block
  block-All height w h = elim (Option-cases (n.block height)) [
    | inl e ↦ rw (e, process_eth_block) h
    | inr (b, e) ↦ elim (Bool-cases (is_reorg height w b)) [
      | inl f ↦ rw (e, f, process_eth_block) (rw (roll_back-deposits height w) h)
      | inr f ↦
          rw (e, f, process_eth_block)
            (transfers-All height b e b.transactions w.deposits (λ t k. k) h)
    ]
  ]

  or_stop-All :
      (x : Bool × EthWatcher) (next : EthWatcher → Bool × EthWatcher)
      → ((v : EthWatcher) → All P v.deposits → All P (next v).1.deposits)
      → All P x.1.deposits
      → All P (or_stop x next).1.deposits
  or_stop-All (true, w) next k h = k w h
  or_stop-All (false, w) next k h = h

  blocks-All :
      (height count : ℕ) (w : EthWatcher)
      → All P w.deposits
      → All P (process_eth_blocks n r height count w).1.deposits
  unfolding process_eth_blocks
  blocks-All height zero w h = h
  blocks-All height (suc count) w h =
      or_stop-All (process_eth_block n r height w) (process_eth_blocks n r (height + 1) count)
        (λ v k. blocks-All (height + 1) count v k) (block-All height w h)

  at_height-All :
      (current : ℕ) (x : Bool × EthWatcher)
      → All P x.1.deposits
      → All P (at_height current x).deposits
  at_height-All current (true, w) h = h
  at_height-All current (false, w) h = h

  -- A scan adds only payments that the node has shown.
  pub scan_eth_blocks-All :
      (w : EthWatcher) → All P w.deposits → All P (scan_eth_blocks n r w).deposits
  unfolding scan_eth_blocks
  scan_eth_blocks-All w h = elim (Option-cases n.head) [
    | inl e ↦ rw (e, scan_eth_blocks) h
    | inr (current, e) ↦ elim (Bool-cases (ltb w.last_height current)) [
      | inl f ↦ rw (e, f, scan_eth_blocks) (at_height-All current _ (blocks-All _ _ w h))
      | inr f ↦ rw (e, f, scan_eth_blocks) h
    ]
  ]
