-- ===== src/Wallet/Reconcile.antt =====
-- internal/wallet/reconcile/reconciler.go: comparing the deposits of the last blocks with the table.
-- The texts of two amounts, each with eight decimals, are compared as counts of 10^-8. The loop over
-- the map `dbByTxID` has no fixed order in Go; it is taken in the order of the rows.
pub mod Btc
pub mod Eth
pub mod Run
pub mod Events
pub mod Quiet
pub mod Agreement
use web3_blitz.Base.{
  ℕ, zero, suc, ◌+◌, ◌-◌, Bool, true, false, not, ◌||◌, Option, none, some, List, [], ◌∷◌, ◌++◌,
  String, ◌==◌, ltb, str_eq, has_row, select, if◌then◌else◌, map,
}
use web3_blitz.Base.Int.{ℤ, pos, negsuc}
use web3_blitz.Code.{internal}
use web3_blitz.Db.Models.{Chain, btc, eth, chain_eq, Deposit, DepositAddress}
use web3_blitz.Db.Deposits.{list_all_deposit_addresses, list_deposits_by_chain_and_height_range}
use web3_blitz.Effects.{World, Reply, ok, fail, try_read}
use web3_blitz.Money.{sprintf8}
use web3_blitz.Wallet.Watch.Btc.{Vout, BtcTx}
use web3_blitz.Wallet.Watch.Eth.{EthTransfer}

-- An output that pays one of the addresses.
pub record Output : Type 0 where
  pub tx_id : String
  pub address : String
  pub amount : ℕ
  pub height : ℕ

-- What is counted and logged. `scan_error` is `ReconcileErrorsTotal` with its labels.
data Report : Type 0 where
  scan_error : String → String → Report
  missing : Chain → Output → Report
  amount_mismatch : Chain → Output → Deposit → Report
  phantom : Chain → Deposit → Report

-- The reports so far, and the keys of `seenOnChain`.
record Scan : Type 0 where
  pub reports : List Report
  pub seen : List String

abbrev add_report : Report → Scan → Scan
add_report r s = record s { reports = s.reports ++ r ∷ [] }

abbrev is_seen : String → List String → Bool
is_seen t seen = has_row (str_eq t) seen

-- The map by transaction id: a later row replaces an earlier one.
unfoldable by_tx_id : String → List Deposit → Option Deposit
by_tx_id t [] = none
by_tx_id t (d ∷ ds) = elim (by_tx_id t ds) [
  | none ↦ if str_eq d.tx_id t then some d else none
  | some e ↦ some e
]

-- What the two loops do with an output that pays one of the addresses.
unfoldable compare_output : Chain → List Deposit → Output → Scan → Scan
compare_output chain db o s = elim (by_tx_id o.tx_id db) [
  | none ↦ add_report (missing chain o) s
  | some d ↦
      let s' = record s { seen = o.tx_id ∷ s.seen } in
      if d.amount == o.amount then s' else add_report (amount_mismatch chain o d) s'
]

-- The loop over the map at the end: each key once.
unfoldable phantoms : Chain → List String → List Deposit → List Report
phantoms chain seen [] = []
phantoms chain seen (d ∷ ds) =
    if has_row (λ (e : Deposit). str_eq e.tx_id d.tx_id) ds || is_seen d.tx_id seen
    then phantoms chain seen ds
    else phantom chain d ∷ phantoms chain seen ds

abbrev empty_scan : Scan
empty_scan = record { reports = []; seen = [] }

-- After the scan: nothing more when the context has ended.
abbrev with_phantoms : Chain → List Deposit → Bool × Scan → List Report
with_phantoms chain db (false, s) = s.reports
with_phantoms chain db (true, s) = s.reports ++ phantoms chain s.seen db

-- A chain without addresses is left out.
abbrev if_any : List String → (World → List Report × World) → World → List Report × World
if_any [] run w = ([], w)
if_any (a ∷ as') run w = run w
