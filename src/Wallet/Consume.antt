-- ===== src/Wallet/Consume.antt =====
-- cmd/wallet-service/main.go: `consumeDeposits`, which writes what the watchers have seen.
pub mod Outcome
pub mod Kept
use web3_blitz.Base.{ℕ, zero, suc, Bool, true, false, List, [], ◌∷◌, String, if◌then◌else◌}
use web3_blitz.Code.{internal}
use web3_blitz.Db.Models.{Chain, CreateDepositParams}
use web3_blitz.Db.Deposits.{create_deposit, create_dead_letter}
use web3_blitz.Effects.{
  World, ok, fail, ◌>>◌, try_write, ignore_write, emit, deposit_detected, dead_letter_total,
}
use web3_blitz.Money.{sprintf8}

-- A payment to one of the service's addresses; the amount is in 10^-18 coins.
pub record DepositRecord : Type 0 where
  pub tx_id : String
  pub address : String
  pub user_id : ℕ
  pub amount : ℕ
  pub height : ℕ
  pub confirmed : Bool
  pub chain : Chain

abbrev pub deposit_params : DepositRecord → CreateDepositParams
deposit_params d = record {
  tx_id = d.tx_id;
  address = d.address;
  user_id = d.user_id;
  amount = sprintf8 d.amount;
  height = d.height;
  confirmed = if d.confirmed then 1 else 0;
  chain = d.chain;
}

abbrev pub max_retries : ℕ
max_retries = 3

-- The attempts at the insert that are left, up to the first that succeeds.
unfoldable insert_retry : ℕ → DepositRecord → World → Bool × World
insert_retry zero d w = (false, w)
insert_retry (suc n) d w =
    let x = try_write internal (create_deposit (deposit_params d)) w in
    elim x.0 [
      | ok u ↦ (true, (emit (deposit_detected d.chain d.amount) x.1).1)
      | fail c ↦ insert_retry n d x.1
    ]

-- The dead letter, whose own error is dropped.
unfoldable bury : String → DepositRecord → World → World
bury kind d w =
    ((emit (dead_letter_total kind)
        >> ignore_write (create_dead_letter kind (deposit_params d) max_retries))
      w).1

-- One turn of the loop.
pub consume : String → DepositRecord → World → World
consume kind d w = let x = insert_retry max_retries d w in if x.0 then x.1 else bury kind d x.1

-- The loop over the records of a channel.
pub consume_all : String → List DepositRecord → World → World
consume_all kind [] w = w
consume_all kind (d ∷ ds) w = consume_all kind ds (consume kind d w)
