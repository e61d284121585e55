-- ===== src/Wallet/Watch/Eth.antt =====
-- internal/wallet/eth/watcher.go: scanning new blocks, with the detection of reorganisations.
-- A hash is a number, 0 for the hash of zeros; the counter of reorganisations is the metric's.
pub mod Reorg
pub mod Shown
pub mod Retry
use web3_blitz.Base.{
  ℕ, zero, suc, ◌+◌, ◌-◌, Bool, true, false, not, ◌&&◌, Option, none, some, List, [], ◌∷◌, String,
  ◌==◌, ltb, if◌then◌else◌,
}
use web3_blitz.Db.Models.{eth}
use web3_blitz.Wallet.Consume.{DepositRecord}
use web3_blitz.Wallet.Registry.{Registry, lookup}
use web3_blitz.Wallet.Watch.Queue.{offer}

-- A transaction; `none` for one that creates a contract. The value is in wei.
pub record EthTransfer : Type 0 where
  pub tx_id : String
  pub to : Option String
  pub value : ℕ

pub record EthBlock : Type 0 where
  pub hash : ℕ
  pub parent_hash : ℕ
  pub transactions : List EthTransfer

-- What geth answers in one scan, and `common.HexToAddress(a).Hex()`.
pub record EthNode : Type 0 where
  pub head : Option ℕ
  pub block : ℕ → Option EthBlock
  pub hex_to_address : String → String

pub record EthWatcher : Type 0 where
  pub last_height : ℕ
  pub last_hash : ℕ
  pub deposits : List DepositRecord
  pub reorgs : ℕ

abbrev eth_deposit : String → ℕ → ℕ → String → ℕ → DepositRecord
eth_deposit tx_id height user to value = record {
  tx_id = tx_id;
  address = to;
  user_id = user;
  amount = value;
  height = height;
  confirmed = false;
  chain = eth;
}

-- The two lookups.
abbrev lookup_either : EthNode → Registry → String → Option ℕ
lookup_either n r to = elim (lookup to r) [
  | none ↦ lookup (n.hex_to_address to) r
  | some user ↦ some user
]

unfoldable pub process_transfer :
    EthNode → Registry → ℕ → EthTransfer → List DepositRecord → List DepositRecord
process_transfer n r height t q = elim t.to [
  | none ↦ q
  | some to ↦ elim (lookup_either n r to) [
    | none ↦ q
    | some user ↦ offer (eth_deposit t.tx_id height user to t.value) q
  ]
]

unfoldable pub process_transfers :
    EthNode → Registry → ℕ → List EthTransfer → List DepositRecord → List DepositRecord
process_transfers n r height [] q = q
process_transfers n r height (t ∷ ts) q =
    process_transfers n r height ts (process_transfer n r height t q)

-- A block whose parent is not the last block that was processed.
abbrev is_reorg : ℕ → EthWatcher → EthBlock → Bool
is_reorg height w b = ltb 0 height && not (w.last_hash == 0) && not (b.parent_hash == w.last_hash)

-- The way back: the previous block is read again and becomes the last one.
unfoldable pub roll_back : EthNode → ℕ → EthWatcher → EthWatcher
roll_back n height w =
    let counted = record w { reorgs = suc w.reorgs } in
    elim (n.block (height - 1)) [
      | none ↦ counted
      | some p ↦ record counted { last_hash = p.hash; last_height = height - 1 }
    ]

-- `processBlock`: whether it was processed, and the watcher after it.
unfoldable pub process_eth_block : EthNode → Registry → ℕ → EthWatcher → Bool × EthWatcher
process_eth_block n r height w = elim (n.block height) [
  | none ↦ (false, w)
  | some b ↦ if is_reorg height w b then (false, roll_back n height w) else (
    true,
    record w {
      deposits = process_transfers n r height b.transactions w.deposits;
      last_hash = b.hash;
    },
  )
]

-- What comes after a block: the next ones, or the end of this scan.
abbrev or_stop : Bool × EthWatcher → (EthWatcher → Bool × EthWatcher) → Bool × EthWatcher
or_stop (true, w) next = next w
or_stop (false, w) next = (false, w)

unfoldable pub process_eth_blocks : EthNode → Registry → ℕ → ℕ → EthWatcher → Bool × EthWatcher
process_eth_blocks n r height zero w = (true, w)
process_eth_blocks n r height (suc count) w =
    or_stop (process_eth_block n r height w) (process_eth_blocks n r (height + 1) count)

-- The last height moves only after every block was processed.
abbrev at_height : ℕ → Bool × EthWatcher → EthWatcher
at_height current (true, w) = record w { last_height = current }
at_height current (false, w) = w

unfoldable pub scan_eth_blocks : EthNode → Registry → EthWatcher → EthWatcher
scan_eth_blocks n r w = elim n.head [
  | none ↦ w
  | some current ↦
      if ltb w.last_height current
      then at_height current
          (process_eth_blocks n r (w.last_height + 1) (current - w.last_height) w)
      else w
]
