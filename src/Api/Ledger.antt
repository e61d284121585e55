-- ===== src/Api/Ledger.antt =====
-- The withdrawals table under any sequence of requests of internal/api/wallet.go, with time passing
-- and database outages in between.
pub mod Rows
pub mod Pending
pub mod Change
pub mod History
pub mod Paid
pub mod Twice
pub mod Race
pub mod Charged
pub mod Solvency
pub mod Deposits
use web3_blitz.Base.{ℕ, ◌+◌, Bool, List, [], ◌∷◌}
use web3_blitz.Base.Int.{ℤ}
use web3_blitz.Effects.{World, LockKey}
use web3_blitz.Api.Request.{Request}
use web3_blitz.Api.Withdraw.{Env, WithdrawBody, withdraw}
use web3_blitz.Api.Review.{RejectBody, approve_withdrawal, reject_withdrawal}

-- One request as a whole, or what happens around them: time, outages of the database, and leases
-- that run out in etcd.
pub data Call : Type 0 where
  withdraw_call : Env → Request WithdrawBody → Call
  approve_call : Env → Request ℤ → Call
  reject_call : Request RejectBody → Call
  wait : ℕ → Call
  outage : List Bool → Call
  leases : List LockKey → Call

-- A request is one step here. net/http runs handlers concurrently, and the reviews hold no lock, so
-- what is shown of sequences of calls holds of the service only while no two of its requests run at
-- the same time; `Race` shows two reviews that do.
pub apply : Call → World → World
apply (withdraw_call env r) w = (withdraw env r w).1
apply (approve_call env r) w = (approve_withdrawal env r w).1
apply (reject_call r) w = (reject_withdrawal r w).1
apply (wait n) w = record w { now = w.now + n }
apply (outage l) w = record w { outages = l }
apply (leases l) w = record w { held = l }

pub run : List Call → World → World
run [] w = w
run (c ∷ cs) w = run cs (apply c w)
