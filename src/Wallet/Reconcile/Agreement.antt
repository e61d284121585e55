-- ===== src/Wallet/Reconcile/Agreement.antt =====
-- What a whole run of the reconciler says about the two chains and the table.
use web3_blitz.Base.{
  ℕ, ◌+◌, ◌-◌, ◌≡◌, ◌⊎◌, ◌↔◌, inl, inr, refl, ap, ◌∙◌, Option, Bool, true, false, some, List, [],
  ◌∷◌, String, ltb, select, if◌then◌else◌,
}
use web3_blitz.Db.Models.{btc, eth, Tables}
use web3_blitz.Db.Deposits.{list_all_deposit_addresses, list_deposits_by_chain_and_height_range}
use web3_blitz.Effects.{World}
use web3_blitz.Code.{internal}
use web3_blitz.Effects.Laws.{try_read-up}
use web3_blitz.Wallet.Reconcile.{Report, Scan, empty_scan, with_phantoms, if_any}
use web3_blitz.Wallet.Reconcile.Btc.{
  BtcChain, reconcile_btc_rows, reconcile_btc_below, reconcile_btc,
}
use web3_blitz.Wallet.Reconcile.Eth.{
  EthChain, reconcile_eth_rows, reconcile_eth_below, reconcile_eth, address_set,
}
use web3_blitz.Wallet.Reconcile.Run.{Reconciler, addresses_of, both, run_listed, run_reconcile}
use web3_blitz.Wallet.Reconcile.Events.{
  run_events, btc_events, btc_blocks_lem, eth_events, eth_blocks_lem,
}
use web3_blitz.Wallet.Reconcile.Quiet.{Agrees, in_range, scan-quiet, append_nil_inv}

abbrev eth_lo : ℕ → ℕ → ℕ
eth_lo depth hi = if ltb depth hi then hi - depth else 0

module _ (w : World) (up : w.outages ≡ []) where
  btc_reports :
      (depth : ℕ) (n : BtcChain) (addrs : List String) (hi : ℕ)
      → n.info ≡ some hi
      → ((h : ℕ) → n.is_done h ≡ false)
      → let lo = hi - depth in
        let db = in_range btc lo hi w.tables in
        let es = btc_events n addrs lo (hi + 1 - lo) in
        reconcile_btc depth n addrs w
        ≡ (with_phantoms btc db (true, run_events btc db es empty_scan), record w { outages = [] })
  unfolding reconcile_btc reconcile_btc_below reconcile_btc_rows
      list_deposits_by_chain_and_height_range
  btc_reports depth n addrs hi e live =
      let lo = hi - depth in
      let db = in_range btc lo hi w.tables in
      ap (λ (i : Option ℕ). reconcile_btc_below depth n addrs i w) e
      ∙ ap (reconcile_btc_rows n addrs lo hi) (try_read-up internal _ w up)
      ∙ ap (λ (x : Bool × Scan). (with_phantoms btc db x, record w { outages = [] }))
          (btc_blocks_lem n addrs db lo (hi + 1 - lo) empty_scan live)

  eth_reports :
      (depth : ℕ) (n : EthChain) (addrs : List String) (hi : ℕ)
      → n.header ≡ some hi
      → ((h : ℕ) → n.is_done h ≡ false)
      → let lo = eth_lo depth hi in
        let db = in_range eth lo hi w.tables in
        let es = eth_events n addrs lo (hi + 1 - lo) in
        reconcile_eth_below depth n addrs n.header w
        ≡ (with_phantoms eth db (true, run_events eth db es empty_scan), record w { outages = [] })
  unfolding reconcile_eth_below reconcile_eth_rows list_deposits_by_chain_and_height_range
  eth_reports depth n addrs hi e live =
      let lo = eth_lo depth hi in
      let db = in_range eth lo hi w.tables in
      ap (λ (i : Option ℕ). reconcile_eth_below depth n addrs i w) e
      ∙ ap (reconcile_eth_rows n addrs lo hi) (try_read-up internal _ w up)
      ∙ ap (λ (x : Bool × Scan). (with_phantoms eth db x, record w { outages = [] }))
          (eth_blocks_lem n addrs db lo (hi + 1 - lo) empty_scan live)

-- A run that leaves out a chain without addresses is quiet when there are none, or when it would be.
if_any-quiet :
    {A : Type 0} (addrs : List String) (run : World → List Report × World) (w : World)
    → ((run w).0 ≡ []) ↔ A
    → ((if_any addrs run w).0 ≡ []) ↔ ((addrs ≡ []) ⊎ A)
if_any-quiet [] run w h = (λ e. inl refl, λ e. refl)
if_any-quiet (a ∷ as') run w h = (λ e. inr (h.0 e), λ e. elim e [ inl k ↦ cc | inr k ↦ h.1 k ])

both-quiet :
    (x : List Report × World) (run : World → List Report × World)
    → ((both x run).0 ≡ []) ↔ ((x.0 ≡ []) × ((run x.1).0 ≡ []))
both-quiet (rs, w) run = (λ e. append_nil_inv rs _ e, λ (e0, e1). rw e0 e1)

-- The bitcoin side agrees with the rows of the last `depth` blocks, or has no addresses.
abbrev pub BtcAgrees : ℕ → BtcChain → ℕ → Tables → Type 0
BtcAgrees depth n hi t =
    let addrs = addresses_of btc t.deposit_addresses in
    let lo = hi - depth in
    (addrs ≡ []) ⊎ Agrees (in_range btc lo hi t) (btc_events n addrs lo (hi + 1 - lo))

abbrev pub EthAgrees : ℕ → EthChain → ℕ → Tables → Type 0
EthAgrees depth n hi t =
    let addrs = address_set n (addresses_of eth t.deposit_addresses) in
    let lo = eth_lo depth hi in
    (addrs ≡ []) ⊎ Agrees (in_range eth lo hi t) (eth_events n addrs lo (hi + 1 - lo))

btc-quiet :
    (depth : ℕ) (n : BtcChain) (hi : ℕ) (w : World)
    → w.outages ≡ []
    → n.info ≡ some hi
    → ((h : ℕ) → n.is_done h ≡ false)
    → let addrs = addresses_of btc w.tables.deposit_addresses in
      ((if_any addrs (reconcile_btc depth n addrs) w).0 ≡ []) ↔ BtcAgrees depth n hi w.tables
btc-quiet depth n hi w up e live =
    let addrs = addresses_of btc w.tables.deposit_addresses in
    let lo = hi - depth in
    if_any-quiet addrs (reconcile_btc depth n addrs) w (
      rw (btc_reports w up depth n addrs hi e live)
        (scan-quiet btc (in_range btc lo hi w.tables) (btc_events n addrs lo (hi + 1 - lo))))

eth-quiet :
    (depth : ℕ) (n : EthChain) (hi : ℕ) (w : World)
    → w.outages ≡ []
    → n.header ≡ some hi
    → ((h : ℕ) → n.is_done h ≡ false)
    → let addrs = addresses_of eth w.tables.deposit_addresses in
      ((if_any addrs (reconcile_eth depth n addrs) w).0 ≡ []) ↔ EthAgrees depth n hi w.tables
unfolding reconcile_eth
eth-quiet depth n hi w up e live =
    let addrs = addresses_of eth w.tables.deposit_addresses in
    let set = address_set n addrs in
    let lo = eth_lo depth hi in
    let (there, back) = if_any-quiet addrs (reconcile_eth depth n addrs) w (
      if_any-quiet set (reconcile_eth_below depth n set n.header) w (
        rw (eth_reports w up depth n set hi e live)
          (scan-quiet eth (in_range eth lo hi w.tables) (eth_events n set lo (hi + 1 - lo))))) in
    (
      λ quiet. elim (there quiet) [
        | inl k ↦ inl (rw k (unfold address_set select in refl))
        | inr k ↦ k
      ],
      λ agrees. back (inr agrees),
    )

-- The world in which the second chain is compared.
after_btc :
    (depth : ℕ) (n : BtcChain) (addrs : List String) (hi : ℕ) (w : World)
    → w.outages ≡ []
    → n.info ≡ some hi
    → ((h : ℕ) → n.is_done h ≡ false)
    → ((if_any addrs (reconcile_btc depth n addrs) w).1.outages ≡ [])
      × ((if_any addrs (reconcile_btc depth n addrs) w).1.tables ≡ w.tables)
after_btc depth n [] hi w up e live = (up, refl)
after_btc depth n (a ∷ as') hi w up e live =
    rw (btc_reports w up depth n (a ∷ as') hi e live) (refl, refl)

-- When both nodes report a height, the context does not end and the database answers, the run
-- reports nothing exactly when each chain that has addresses agrees with its rows: in the range of
-- heights every block was given, every output to one of the addresses has a row in the range with
-- its transaction id and its amount, and every row in the range has an output with its transaction
-- id. The comparison goes by transaction id: the user and the address of a row are not compared, one
-- row answers for every output of its transaction with its amount, and a row outside the range of
-- heights is not looked at.
pub run_reconcile_quiet :
    (r : Reconciler) (b : BtcChain) (e : EthChain) (b_hi e_hi : ℕ) (w : World)
    → b.info ≡ some b_hi
    → e.header ≡ some e_hi
    → ((h : ℕ) → b.is_done h ≡ false)
    → ((h : ℕ) → e.is_done h ≡ false)
    → w.outages ≡ []
    → ((run_reconcile r b e w).0 ≡ [])
      ↔ (BtcAgrees r.btc_depth b b_hi w.tables × EthAgrees r.eth_depth e e_hi w.tables)
unfolding run_reconcile run_listed list_all_deposit_addresses
run_reconcile_quiet r b e b_hi e_hi w ib ie lb le up =
    let v : World = record w { outages = [] } in
    let addrs = addresses_of btc w.tables.deposit_addresses in
    let x = if_any addrs (reconcile_btc r.btc_depth b addrs) v in
    let (up', same) = after_btc r.btc_depth b addrs b_hi v refl ib lb in
    let btc_side = btc-quiet r.btc_depth b b_hi v refl ib lb in
    let eth_side = rw same at (eth-quiet r.eth_depth e e_hi x.1 up' ie le) in
    let eth_addrs = addresses_of eth w.tables.deposit_addresses in
    let (there, back) = both-quiet x (if_any eth_addrs (reconcile_eth r.eth_depth e eth_addrs)) in
    rw (try_read-up internal list_all_deposit_addresses w up) (
      λ quiet. (btc_side.0 (there quiet).0, eth_side.0 (there quiet).1),
      λ agrees. back (btc_side.1 agrees.0, eth_side.1 agrees.1),
    )
