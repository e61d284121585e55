-- ===== src/Wallet/Reconcile/Run.antt =====
-- internal/wallet/reconcile/reconciler.go: `New` and `Run`.
use web3_blitz.Base.{ℕ, zero, suc, Option, none, some, List, [], ◌∷◌, ◌++◌, String, select, map}
use web3_blitz.Base.Int.{ℤ, pos, negsuc}
use web3_blitz.Code.{internal}
use web3_blitz.Db.Models.{Chain, btc, eth, chain_eq, DepositAddress}
use web3_blitz.Db.Deposits.{list_all_deposit_addresses}
use web3_blitz.Effects.{World, Reply, ok, fail, try_read}
use web3_blitz.Wallet.Reconcile.{Report, scan_error, if_any}
use web3_blitz.Wallet.Reconcile.Btc.{BtcChain, reconcile_btc}
use web3_blitz.Wallet.Reconcile.Eth.{EthChain, reconcile_eth}

pub record Reconciler : Type 0 where
  pub btc_depth : ℕ
  pub eth_depth : ℕ

-- The depths from the environment, as `strconv` reads them: `none` is a text that is no number.
abbrev positive_or : Option ℤ → ℕ → ℕ
positive_or none default = default
positive_or (some (negsuc n)) default = default
positive_or (some (pos zero)) default = default
positive_or (some (pos (suc n))) default = suc n

unfoldable new_reconciler : Option ℤ → Option ℤ → Reconciler
new_reconciler btc_env eth_env = record {
  btc_depth = positive_or btc_env 200;
  eth_depth = positive_or eth_env 10000;
}

abbrev pub addresses_of : Chain → List DepositAddress → List String
addresses_of c rows =
    map (λ (a : DepositAddress). a.address)
      (select (λ (a : DepositAddress). chain_eq a.chain c) rows)

abbrev pub both : List Report × World → (World → List Report × World) → List Report × World
both (reports, w) run = (reports ++ (run w).0, (run w).1)

unfoldable pub run_listed :
    Reconciler → BtcChain → EthChain → Reply (List DepositAddress) × World → List Report × World
run_listed r b e (fail c, w) = (scan_error "all" "load_addresses" ∷ [], w)
run_listed r b e (ok rows, w) =
    let btc_addrs = addresses_of btc rows in
    let eth_addrs = addresses_of eth rows in
    both (if_any btc_addrs (reconcile_btc r.btc_depth b btc_addrs) w)
      (if_any eth_addrs (reconcile_eth r.eth_depth e eth_addrs))

-- `Run`.
unfoldable pub run_reconcile : Reconciler → BtcChain → EthChain → World → List Report × World
unfolding run_listed
run_reconcile r b e w = run_listed r b e (try_read internal list_all_deposit_addresses w)
