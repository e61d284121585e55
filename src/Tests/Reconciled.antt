-- ===== src/Tests/Reconciled.antt =====
-- The reconciler on a chain of one payment.
use web3_blitz.Base.{
  ◌*◌, ◌≡◌, ◌↔◌, refl, true, false, some, List, [], ◌∷◌, ℕ, Option, String, ◌==◌, str_eq,
  if◌then◌else◌,
}
use web3_blitz.Money.{coin}
use web3_blitz.Db.Models.{btc, Deposit}
use web3_blitz.Effects.{World}
use web3_blitz.Wallet.Watch.Btc.{BtcTx}
use web3_blitz.Wallet.Watch.Eth.{EthTransfer}
use web3_blitz.Wallet.Reconcile.Btc.{BtcChain}
use web3_blitz.Wallet.Reconcile.Eth.{EthChain}
use web3_blitz.Wallet.Reconcile.Run.{Reconciler, run_reconcile}
use web3_blitz.Wallet.Reconcile.Agreement.{BtcAgrees, EthAgrees, run_reconcile_quiet}
use web3_blitz.Tests.Data.{world}

abbrev paid : Deposit
paid = record {
  id = 1;
  tx_id = "t1";
  address = "bc1mine";
  user_id = 7;
  amount = 500000000;
  height = 2;
  confirmed = 1;
  chain = btc;
}

abbrev recorded : World
recorded = record world {
  tables = record world.tables {
    deposits = paid ∷ [];
    deposit_addresses =
        record { id = 1; user_id = 7; address = "bc1mine"; path = "m/0"; chain = btc } ∷ [];
  };
}

abbrev txs_of : String → Option (List BtcTx)
txs_of b = some (
    if str_eq b "b2"
    then record { tx_id = "t1"; vout = record { address = "bc1mine"; value = 5 * coin } ∷ [] } ∷ []
    else [])

abbrev hash_of : ℕ → Option String
hash_of h = some (if h == 2 then "b2" else "b")

abbrev btc_chain : BtcChain
btc_chain = record {
  info = some 3;
  block_hash = hash_of;
  block_verbose = txs_of;
  decode_address = λ a. true;
  is_done = λ h. false;
}

abbrev no_txs : ℕ → Option (List EthTransfer)
no_txs h = some []

abbrev eth_chain : EthChain
eth_chain = record {
  header = some 3;
  block_by_number = no_txs;
  is_hex_address = λ a. true;
  hex_to_address = λ a. a;
  is_done = λ h. false;
}

abbrev reconciler : Reconciler
reconciler = record { btc_depth = 2; eth_depth = 2 }

run_reconcile_quiet_example :
    ((run_reconcile reconciler btc_chain eth_chain recorded).0 ≡ [])
    ↔ (BtcAgrees 2 btc_chain 3 recorded.tables × EthAgrees 2 eth_chain 3 recorded.tables)
run_reconcile_quiet_example =
    run_reconcile_quiet reconciler btc_chain eth_chain 3 3 recorded refl refl (λ h. refl)
      (λ h. refl) refl
