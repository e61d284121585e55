-- ===== src/Wallet/Sweep.antt =====
-- internal/wallet/sweep/sweeper.go: moving the surplus of the hot wallets to cold storage.
-- The amounts that stay behind are read from the environment and taken not to be negative; the
-- gauge of swept amounts and `SweepFailed` are left out of the log.
pub mod Surplus
use web3_blitz.Base.{
  ℕ, ◌+◌, ◌-◌, ◌*◌, Bool, true, false, not, ◌&&◌, Option, none, some, [], ◌∷◌, ◌++◌, String, str_eq,
  ltb, if◌then◌else◌,
}
use web3_blitz.Db.Models.{Chain, btc, eth}
use web3_blitz.Effects.{
  World, SweepOutcome, sweep_error, sweep_skipped, sweep_success, sweep_total, sweep_executed,
}
use web3_blitz.Money.{sprintf8}
use web3_blitz.Wallet.Node.{Node}
use web3_blitz.Wallet.Withdraw.{broadcast, btc_lost, gas_limit, eth_tx}

-- The configuration, the balances that the nodes report, and whether the context is cancelled. The
-- hot key is empty, cannot be parsed, or is there.
pub data HotKey : Type 0 where
  no_key bad_key good_key : HotKey

pub record Sweeper : Type 0 where
  pub node : Node
  pub btc_balance : Option ℕ
  pub eth_balance : Option ℕ
  pub cancelled : Bool
  pub cold_addr_btc : String
  pub cold_addr_eth : String
  pub keep_btc : ℕ
  pub keep_eth : ℕ
  pub btc_fee_buffer : ℕ
  pub hot_key : HotKey

abbrev log_sweep : Chain → SweepOutcome → World → World
log_sweep c o w = record w { log = w.log ++ sweep_total c o ∷ [] }

abbrev swept : Chain → String → String → ℕ → ℕ → String → World → World
swept c cold to value amount tx w = record w {
  sent = w.sent ++ record { chain = c; to = to; value = value; tx_id = tx } ∷ [];
  log = w.log ++ sweep_total c sweep_success ∷ sweep_executed c (sprintf8 amount) tx cold ∷ [];
}

-- From the cold address on, with a positive amount.
unfoldable send_btc : Sweeper → ℕ → World → World
send_btc s amount w =
    if s.node.decode_address s.cold_addr_btc
    then elim (s.node.new_amount amount) [
      | none ↦ log_sweep btc sweep_error w
      | some satoshis ↦
          if s.cancelled then w else elim (s.node.send_to_address s.cold_addr_btc satoshis) [
            | none ↦ log_sweep btc sweep_error (btc_lost s.node s.cold_addr_btc satoshis w)
            | some tx ↦ swept btc s.cold_addr_btc s.cold_addr_btc satoshis amount tx w
          ]
    ]
    else log_sweep btc sweep_error w

-- `sweepBTC`: `balance - keepBTC - btcFeeBuffer`, if that is positive.
pub sweep_btc : Sweeper → World → World
sweep_btc s w = elim s.btc_balance [
  | none ↦ log_sweep btc sweep_error w
  | some balance ↦
      if ltb (s.keep_btc + s.btc_fee_buffer) balance
      then send_btc s (balance - s.keep_btc - s.btc_fee_buffer) w
      else log_sweep btc sweep_skipped w
]

-- From the nonce on.
unfoldable send_eth : Sweeper → ℕ → ℕ → World → World
send_eth s amount price w = elim s.node.pending_nonce [
  | none ↦ log_sweep eth sweep_error w
  | some nonce ↦ elim s.node.chain_id [
    | none ↦ log_sweep eth sweep_error w
    | some chain ↦ elim (s.node.sign_tx (eth_tx s.node s.cold_addr_eth amount nonce price chain)) [
      | none ↦ log_sweep eth sweep_error w
      | some hash ↦
          let to = s.node.hex_to_address s.cold_addr_eth in
          if s.node.send_transaction hash
          then swept eth s.cold_addr_eth to amount amount hash w
          else log_sweep eth sweep_error (
              if s.node.lost_transaction hash
              then broadcast (record { chain = eth; to = to; value = amount; tx_id = hash }) w
              else w)
    ]
  ]
]

-- `sweepETH` with a key: the balance less the gas and what stays, if that is positive.
unfoldable sweep_eth_with_key : Sweeper → World → World
sweep_eth_with_key s w = elim s.eth_balance [
  | none ↦ log_sweep eth sweep_error w
  | some balance ↦ elim s.node.suggest_gas_price [
    | none ↦ log_sweep eth sweep_error w
    | some price ↦
        if ltb (gas_limit * price + s.keep_eth) balance
        then if s.cancelled
          then w
          else send_eth s (balance - gas_limit * price - s.keep_eth) price w
        else log_sweep eth sweep_skipped w
  ]
]

pub sweep_eth : Sweeper → World → World
sweep_eth s w = elim s.hot_key [
  | good_key ↦ sweep_eth_with_key s w
  | _ ↦ log_sweep eth sweep_error w
]

abbrev is_key : HotKey → Bool
is_key no_key = false
is_key _ = true

-- `Run`.
unfoldable run_sweep : Sweeper → World → World
run_sweep s w =
    let v = if str_eq s.cold_addr_btc "" then w else sweep_btc s w in
    if not (str_eq s.cold_addr_eth "") && is_key s.hot_key then sweep_eth s v else v
