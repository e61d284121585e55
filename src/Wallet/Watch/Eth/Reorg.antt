-- ===== src/Wallet/Watch/Eth/Reorg.antt =====
-- The chain of hashes that the ETH watcher follows.
use web3_blitz.Base.{
  ℕ, zero, suc, ◌+◌, ◌-◌, ◌<◌, ◌≡◌, ◌⊎◌, refl, ◌∙◌, sym, ap, subst, Bool, true, false, some, arith,
  Bool-cases, Option-cases, inl, inr,
}
use web3_blitz.Wallet.Registry.{Registry}
use web3_blitz.Wallet.Watch.Eth.{
  EthBlock, EthNode, EthWatcher, roll_back, process_eth_block, process_eth_blocks, at_height,
  scan_eth_blocks,
}

-- From the hash `last` on, `count` blocks of the node from `height` on are a chain that ends in the
-- hash `end`.
abbrev pub IsChain : EthNode → ℕ → ℕ → ℕ → ℕ → Type 0
IsChain n height zero last end = end ≡ last
IsChain n height (suc count) last end =
    (b : EthBlock) × (n.block height ≡ some b)
    × ((last ≡ 0) ⊎ (b.parent_hash ≡ last))
    × IsChain n (height + 1) count b.hash end

-- A block that was processed followed the last one.
record IsNext (n : EthNode) (height : ℕ) (w v : EthWatcher) : Type 0 where
  block : EthBlock
  found : n.block height ≡ some block
  linked : (w.last_hash ≡ 0) ⊎ (block.parent_hash ≡ w.last_hash)
  hash : v.last_hash ≡ block.hash
  same_reorgs : v.reorgs ≡ w.reorgs
  same_height : v.last_height ≡ w.last_height

block-IsNext :
    (n : EthNode) (r : Registry) (height : ℕ) (w : EthWatcher)
    → 0 < height
    → (process_eth_block n r height w).0 ≡ true
    → IsNext n height w (process_eth_block n r height w).1
unfolding process_eth_block
block-IsNext n r height w p h = elim (Option-cases (n.block height)) [
  | inl e ↦ absurd (ground arith)
  | inr (b, e) ↦ record {
    block = b;
    found = e;
    linked = ground arith;
    hash = ground arith;
    same_reorgs = ground arith;
    same_height = ground arith;
  }
]

-- A block that was not processed leaves the height below it.
block_stop :
    (n : EthNode) (r : Registry) (height : ℕ) (w : EthWatcher)
    → w.last_height < height
    → (process_eth_block n r height w).0 ≡ false
    → (process_eth_block n r height w).1.last_height < height
unfolding process_eth_block roll_back
block_stop n r height w p h = ground arith

blocks_lem :
    (n : EthNode) (r : Registry) (height count : ℕ) (w : EthWatcher)
    → w.last_height < height
    → let x = process_eth_blocks n r height count w in
      ((x.0 ≡ true) × IsChain n height count w.last_hash x.1.last_hash × (x.1.reorgs ≡ w.reorgs))
      ⊎ ((x.0 ≡ false) × (x.1.last_height + 1 < height + count))
unfolding process_eth_blocks
blocks_lem n r height zero w p = inl (refl, refl, refl)
blocks_lem n r height (suc count) w p =
    let y = process_eth_block n r height w in
    elim (Bool-cases y.0) [
      | inr e ↦ inr (ground arith, ground (arith, block_stop n r height w p e))
      | inl e ↦
          let k = block-IsNext n r height w (omega arith) e in
          let rest = process_eth_blocks n r (height + 1) count y.1 in
          let ran : process_eth_blocks n r height (suc count) w ≡ rest = ground arith in
          elim (blocks_lem n r (height + 1) count y.1 (ground (arith, k.same_height))) [
            | inl (t, c, s) ↦ inl (
              ap (λ (x : Bool × EthWatcher). x.0) ran ∙ t,
              (
                k.block,
                k.found,
                k.linked,
                subst2 k.hash (ap (λ (x : Bool × EthWatcher). x.1.last_hash) ran) c,
              ),
              ap (λ (x : Bool × EthWatcher). x.1.reorgs) ran ∙ s ∙ k.same_reorgs,
            )
            | inr (f, l) ↦ inr (ap (λ (x : Bool × EthWatcher). x.0) ran ∙ f, ground (arith, ran, l))
          ]
    ]
  where
    subst2 :
        {a b c d : ℕ}
        → a ≡ b
        → c ≡ d
        → IsChain n (height + 1) count a d
        → IsChain n (height + 1) count b c
    subst2 {a} {b} {c} {d} e f k =
        subst (λ (x : ℕ). IsChain n (height + 1) count x c) e
          (subst (λ (x : ℕ). IsChain n (height + 1) count a x) (sym f) k)

-- A scan of the ETH watcher that ends at the node's head has followed a chain: the node returned
-- every block from the last height on, each has the hash before it as its parent (the first one the
-- watcher's last hash, unless that is zero), the watcher's last hash is the last block's, and no
-- reorganisation was counted.
pub scan_eth_blocks-IsChain :
    (n : EthNode) (r : Registry) (w : EthWatcher) (current : ℕ)
    → n.head ≡ some current
    → w.last_height < current
    → (scan_eth_blocks n r w).last_height ≡ current
    → IsChain n
        (w.last_height + 1)
        (current - w.last_height)
        w.last_hash
        (scan_eth_blocks n r w).last_hash
      × ((scan_eth_blocks n r w).reorgs ≡ w.reorgs)
unfolding scan_eth_blocks
scan_eth_blocks-IsChain n r w current e p h =
    let x = process_eth_blocks n r (w.last_height + 1) (current - w.last_height) w in
    let ran : scan_eth_blocks n r w ≡ at_height current x = ground arith in
    elim (blocks_lem n r (w.last_height + 1) (current - w.last_height) w (omega arith)) [
      | inr (f, l) ↦ absurd (ground (arith, ran, l))
      | inl (t, c, s) ↦
          let same : at_height current x ≡ record x.1 { last_height = current } =
            ground (arith, t) in
          let hash = ap (λ (v : EthWatcher). v.last_hash) (ran ∙ same) in
          (
            subst (λ (k : ℕ). IsChain n (w.last_height + 1) (current - w.last_height) w.last_hash k)
                (sym hash) c,
            ap (λ (v : EthWatcher). v.reorgs) (ran ∙ same) ∙ s,
          )
    ]
