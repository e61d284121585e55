-- ===== src/Wallet/Watch/Eth/Retry.antt =====
-- Two scans of the ETH watcher, of which the first one was cut short by an error of the node.
use web3_blitz.Base.{
  ℕ, suc, ◌+◌, ◌-◌, ◌≤◌, ◌≡◌, ◌≢◌, ◌<◌, refl, ◌∙◌, ap, sym, Bool, true, false, none, some, arith,
}
use web3_blitz.Wallet.Registry.{Registry}
use web3_blitz.Wallet.Watch.Eth.{
  EthBlock, EthNode, EthWatcher, is_reorg, or_stop, roll_back, process_transfers, process_eth_block,
  process_eth_blocks, at_height, scan_eth_blocks,
}

-- A block that continues the watcher's chain moves the hash, and leaves the height.
block_linked :
    (n : EthNode) (r : Registry) (height : ℕ) (w : EthWatcher) (b : EthBlock)
    → n.block height ≡ some b
    → b.parent_hash ≡ w.last_hash
    → process_eth_block n r height w ≡ (
      true,
      record w {
        deposits = process_transfers n r height b.transactions w.deposits;
        last_hash = b.hash;
      },
    )
unfolding process_eth_block
block_linked n r height w b found linked =
    let follows : is_reorg height w b ≡ false = ground arith in
    rw (found, follows, process_eth_block) refl

block_lost :
    (n : EthNode) (r : Registry) (height : ℕ) (w : EthWatcher)
    → n.block height ≡ none
    → process_eth_block n r height w ≡ (false, w)
unfolding process_eth_block
block_lost n r height w lost = rw (lost, process_eth_block) refl

-- A block whose parent is not the last hash is counted as a reorganisation.
block_unlinked :
    (n : EthNode) (r : Registry) (height : ℕ) (w : EthWatcher) (b : EthBlock)
    → n.block height ≡ some b
    → 0 < height
    → w.last_hash ≢ 0
    → b.parent_hash ≢ w.last_hash
    → let x = process_eth_block n r height w in (x.0 ≡ false) × (x.1.reorgs ≡ suc w.reorgs)
unfolding process_eth_block roll_back
block_unlinked n r height w b found pos known other =
    let moved : is_reorg height w b ≡ true = ground arith in
    rw (found, moved, process_eth_block) (refl, ground arith)

at_stop :
    (current : ℕ) (x : Bool × EthWatcher) (next : EthWatcher → Bool × EthWatcher)
    → x.0 ≡ false
    → (at_height current (or_stop x next)).reorgs ≡ x.1.reorgs
at_stop current (true, v) next e = cc
at_stop current (false, v) next e = refl

-- The blocks of a scan that has work to do.
scan_ran :
    (n : EthNode) (r : Registry) (w : EthWatcher) (current : ℕ)
    → n.head ≡ some current
    → w.last_height < current
    → scan_eth_blocks n r w
      ≡ at_height current
          (process_eth_blocks n r (w.last_height + 1) (suc (current - w.last_height - 1)) w)
unfolding scan_eth_blocks
scan_ran n r w current head far =
    let more : suc (current - w.last_height - 1) ≡ current - w.last_height = omega arith in
    let ran : scan_eth_blocks n r w
        ≡ at_height current
            (process_eth_blocks n r (w.last_height + 1) (current - w.last_height) w) =
      ground arith in
    ran
    ∙ ap (λ (k : ℕ). at_height current (process_eth_blocks n r (w.last_height + 1) k w)) (sym more)

-- The first block is processed and the node does not give the second one: the hash has moved.
cut_short :
    (n : EthNode) (r : Registry) (w : EthWatcher) (b : EthBlock) (current : ℕ)
    → n.head ≡ some current
    → w.last_height + 2 ≤ current
    → n.block (w.last_height + 1) ≡ some b
    → b.parent_hash ≡ w.last_hash
    → n.block (w.last_height + 1 + 1) ≡ none
    → let v = scan_eth_blocks n r w in
      (v.last_hash ≡ b.hash) × (v.last_height ≡ w.last_height) × (v.reorgs ≡ w.reorgs)
unfolding process_eth_blocks
cut_short n r w b current head far found linked lost =
    let h = w.last_height + 1 in
    let more : current - w.last_height - 1 ≡ suc (current - w.last_height - 2) = omega arith in
    let v : EthWatcher = record w {
      deposits = process_transfers n r h b.transactions w.deposits;
      last_hash = b.hash;
    } in
    rw (scan_ran n r w current head (omega arith)) (
      rw (block_linked n r h w b found linked)
        (rw more (rw (block_lost n r (h + 1) v lost) (refl, refl, refl))))

-- A chain that has not changed is counted as reorganised: when the node gives the block after the
-- last height but not the one after that, and the next scan gets the same block again, the next
-- scan counts a reorganisation, though the block's parent is the last block of before.
pub scan_twice_reorgs :
    (n m : EthNode) (r : Registry) (w : EthWatcher) (b : EthBlock) (current later : ℕ)
    → n.head ≡ some current
    → w.last_height + 2 ≤ current
    → n.block (w.last_height + 1) ≡ some b
    → n.block (w.last_height + 1 + 1) ≡ none
    → m.head ≡ some later
    → w.last_height < later
    → m.block (w.last_height + 1) ≡ some b
    → b.parent_hash ≡ w.last_hash
    → b.hash ≢ 0
    → b.hash ≢ b.parent_hash
    → (scan_eth_blocks m r (scan_eth_blocks n r w)).reorgs ≡ suc w.reorgs
unfolding process_eth_blocks
scan_twice_reorgs n m r w b current later head far found lost head' far' found' linked known other =
    let v = scan_eth_blocks n r w in
    let (hash, height, reorgs) = cut_short n r w b current head far found linked lost in
    let (stopped, counted) =
      block_unlinked m r (v.last_height + 1) v b (rw height found') (omega arith) (rw hash known)
        (λ e. other (sym (e ∙ hash))) in
    ap (λ (x : EthWatcher). x.reorgs) (scan_ran m r v later head' (rw height far'))
    ∙ at_stop later _ _ stopped
    ∙ counted
    ∙ ap suc reorgs
