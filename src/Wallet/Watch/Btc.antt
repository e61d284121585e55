-- ===== src/Wallet/Watch/Btc.antt =====
-- internal/wallet/btc/watcher.go: scanning new blocks for payments to registered addresses.
pub mod Payments
pub mod Runs
pub mod Shown
use web3_blitz.Base.{
  ℕ, zero, suc, ◌+◌, ◌-◌, Bool, true, false, not, ◌||◌, Option, none, some, List, [], ◌∷◌, String,
  str_eq, ltb, if◌then◌else◌,
}
use web3_blitz.Db.Models.{btc}
use web3_blitz.Wallet.Consume.{DepositRecord}
use web3_blitz.Wallet.Registry.{Registry, lookup}
use web3_blitz.Wallet.Watch.Queue.{offer}

-- An output, with an empty address where the script has none, and its value in 10^-18 coins.
pub record Vout : Type 0 where
  pub address : String
  pub value : ℕ

pub record BtcTx : Type 0 where
  pub tx_id : String
  pub vout : List Vout

-- What bitcoind and btcutil answer in one scan: the height, each block (`none` when one of the two
-- calls for it fails), and whether an address can be decoded.
pub record BtcNode : Type 0 where
  pub blocks : Option ℕ
  pub block : ℕ → Option (List BtcTx)
  pub decode_address : String → Bool

pub record BtcWatcher : Type 0 where
  pub last_height : ℕ
  pub deposits : List DepositRecord

abbrev deposit_record : String → ℕ → ℕ → Vout → DepositRecord
deposit_record tx_id height user v = record {
  tx_id = tx_id;
  address = v.address;
  user_id = user;
  amount = v.value;
  height = height;
  confirmed = false;
  chain = btc;
}

module _ (n : BtcNode) (r : Registry) (height : ℕ) where
  -- The body of the inner loop.
  unfoldable pub process_vout : String → Vout → List DepositRecord → List DepositRecord
  process_vout tx_id v q =
      if str_eq v.address "" || not (n.decode_address v.address)
      then q
      else elim (lookup v.address r) [
        | none ↦ q
        | some user ↦ offer (deposit_record tx_id height user v) q
      ]

  unfoldable pub process_vouts : String → List Vout → List DepositRecord → List DepositRecord
  process_vouts tx_id [] q = q
  process_vouts tx_id (v ∷ vs) q = process_vouts tx_id vs (process_vout tx_id v q)

  unfoldable pub process_txs : List BtcTx → List DepositRecord → List DepositRecord
  process_txs [] q = q
  process_txs (t ∷ ts) q = process_txs ts (process_vouts t.tx_id t.vout q)

  -- `processBlock`: an error of the node ends it.
  unfoldable pub process_block : List DepositRecord → List DepositRecord
  process_block q = elim (n.block height) [ none ↦ q | some txs ↦ process_txs txs q ]

-- The loop over the heights, of which `count` are left from `height` on.
unfoldable pub process_blocks : BtcNode → Registry → ℕ → ℕ → List DepositRecord → List DepositRecord
process_blocks n r height zero q = q
process_blocks n r height (suc count) q =
    process_blocks n r (height + 1) count (process_block n r height q)

unfoldable pub scan_new_blocks : BtcNode → Registry → BtcWatcher → BtcWatcher
scan_new_blocks n r w = elim n.blocks [
  | none ↦ w
  | some current ↦
      if ltb w.last_height current
      then record {
        last_height = current;
        deposits = process_blocks n r (w.last_height + 1) (current - w.last_height) w.deposits;
      }
      else w
]
