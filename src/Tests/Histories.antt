-- ===== src/Tests/Histories.antt =====
-- Sequences of requests, and the parts that they rest on, at concrete values.
use web3_blitz.Base.{◌≡◌, ◌*◌, refl, none, some, List, [], ◌∷◌, All, arith, select, find_row}
use web3_blitz.Base.Int.{ℤ, pos}
use web3_blitz.Db.Models.{eth, completed, rejected}
use web3_blitz.Db.Withdrawals.{new_withdrawal, set_outcome, list_pending_withdrawals}
use web3_blitz.Effects.{World, Sent, ok, try_read, ignore_write}
use web3_blitz.Money.{coin, scan, sprintf8}
use web3_blitz.Wallet.Withdraw.{WithdrawResult, eth_withdraw, eth_send}
use web3_blitz.Api.Withdraw.{withdraw, broadcast_withdrawal, broadcast_result, checked}
use web3_blitz.Api.Withdraw.Submit.{row_params}
use web3_blitz.Api.Withdraw.Broadcast.{Pays}
use web3_blitz.Api.Review.{
  ReviewReply, Reviewed, reviewed, need_pending, send_row, approve_result, approve_withdrawal,
  reject_row, reject_withdrawal,
}
use web3_blitz.Api.Review.Outcome.{completion, rejection}
use web3_blitz.Api.Ledger.{Call, run}
use web3_blitz.Api.Ledger.Rows.{HasFreshIds}
use web3_blitz.Api.Ledger.History.{Evolves, run-Evolves}
use web3_blitz.Api.Ledger.Paid.{IsPaid, run-AllPaid}
use web3_blitz.Api.Ledger.Twice.{after_list, withdraw_auto_twice}
use web3_blitz.Api.Ledger.Race.{row_at, approve_reject_race}
use web3_blitz.Tests.Data.{manual, auto, node, world, request, admin, accepted}
use web3_blitz.Tests.Withdrawals.{completed_reply, auto_runs}
use web3_blitz.Tests.Reviews.{approval, rejecting, row, one_pending}

abbrev calls : List Call
calls =
    Call.withdraw_call manual request
    ∷ Call.wait 60
    ∷ Call.approve_call manual approval
    ∷ Call.reject_call rejecting
    ∷ []

one_pending-HasFreshIds : HasFreshIds one_pending.tables
one_pending-HasFreshIds = record { increasing = (tt, tt); below = (omega arith, tt) }

world-HasFreshIds : HasFreshIds world.tables
world-HasFreshIds = record { increasing = tt; below = tt }

run-Evolves_example :
    Evolves one_pending.tables.withdrawals (run calls one_pending).tables.withdrawals
run-Evolves_example = run-Evolves calls one_pending one_pending-HasFreshIds

pending-IsPaid : All (IsPaid one_pending.sent) one_pending.tables.withdrawals
pending-IsPaid = (λ e. cc, tt)

run-AllPaid_example :
    All (IsPaid (run calls one_pending).sent) (run calls one_pending).tables.withdrawals
run-AllPaid_example = run-AllPaid calls one_pending one_pending-HasFreshIds pending-IsPaid

-- The state that a completed withdrawal leaves, with no outage to come.
abbrev after_auto : World
after_auto = record world { tables = (withdraw auto request world).1.tables }

abbrev result : WithdrawResult
result = record { tx_id = "0xaa"; fee = 630000000000000 }

checked-auto : (checked auto request world).0 ≡ ok accepted
unfolding checked
checked-auto = refl

sends_again :
    (send_row manual
      (new_withdrawal world.now world.tables.withdrawal_seq (row_params accepted))
      (after_list after_auto)).0
    ≡ some result
unfolding broadcast_withdrawal broadcast_result eth_withdraw eth_send
sends_again = refl

withdraw_auto_twice_example :
    (tx : Sent) × (tx' : Sent) × ((withdraw auto request world).1.sent ≡ tx ∷ [])
    × Pays node eth "0xto" (2 * coin) tx
    × ((approve_withdrawal manual approval after_auto).0
        ≡ ok (record { id = 1; tx_id = some "0xaa"; status = completed }))
    × ((approve_withdrawal manual approval after_auto).1.sent ≡ tx' ∷ [])
    × Pays node eth "0xto" (scan (sprintf8 (2 * coin))) tx'
withdraw_auto_twice_example =
    withdraw_auto_twice auto request world completed_reply manual approval after_auto admin accepted
      result world-HasFreshIds auto_runs refl refl refl refl refl (omega arith) refl checked-auto
      sends_again

-- What the approval has read.
abbrev read : Reviewed ℤ
read = record { body = pos 1; admin = admin.user_id; row = row }

abbrev read_state : World
read_state = (reviewed (λ id. id) approval one_pending).1

read_runs : (reviewed (λ id. id) approval one_pending).0 ≡ ok read
unfolding reviewed need_pending try_read list_pending_withdrawals select find_row
read_runs = refl

abbrev rejected_now : ReviewReply
rejected_now = record { id = 1; tx_id = none; status = rejected }

reject_runs : (reject_withdrawal rejecting read_state).0 ≡ ok rejected_now
unfolding reject_withdrawal reject_row ignore_write reviewed need_pending try_read
    list_pending_withdrawals select find_row
reject_runs = refl

sends_rejected : (send_row manual row (reject_withdrawal rejecting read_state).1).0 ≡ some result
unfolding broadcast_withdrawal broadcast_result eth_withdraw eth_send
sends_rejected = refl

approve_reject_race_example :
    let v = (reject_withdrawal rejecting read_state).1 in
    let y = approve_result 1 row (send_row manual row v) in
    (approve_withdrawal manual approval one_pending
      ≡ approve_result 1 row (send_row manual row read_state))
    × (row_at 1 v.tables ≡ some (set_outcome (rejection row) row))
    × (y.0 ≡ ok (record { id = 1; tx_id = some "0xaa"; status = completed }))
    × (row_at 1 y.1.tables ≡ some (set_outcome (completion row result) row))
    × (tx : Sent) × Pays node eth "0xto" (2 * coin) tx
    × (y.1.sent ≡ tx ∷ [])
approve_reject_race_example =
    approve_reject_race manual approval rejecting one_pending read {rep = rejected_now} result
      one_pending-HasFreshIds refl read_runs reject_runs refl sends_rejected
