-- ===== src/Tests/Withdrawals.antt =====
-- `Withdraw` at concrete requests.
use web3_blitz.Base.{
  ◌*◌, ◌<◌, ◌≡◌, ◌⊎◌, refl, true, false, some, none, [], ◌∷◌, has_row, sum_by, select, find_row,
  arith,
}
use web3_blitz.Base.Int.{pos}
use web3_blitz.Code.{wallet_insufficient_balance}
use web3_blitz.Db.Models.{eth, other}
use web3_blitz.Db.Deposits.{get_total_deposit_by_user_id_and_chain, deposited}
use web3_blitz.Db.Users.{get_user_level}
use web3_blitz.Db.Withdrawals.{
  create_withdrawal, get_total_withdrawal_by_user_id_and_chain,
  get_last24h_withdrawal_by_user_and_chain, get_withdrawal_limit,
}
use web3_blitz.Effects.{World, Sent, ok, fail, is_ok, try_read, try_write}
use web3_blitz.Money.{coin, scan}
use web3_blitz.Wallet.Withdraw.{eth_withdraw, eth_send}
use web3_blitz.Api.Request.{Request}
use web3_blitz.Api.Withdraw.{
  Env, WithdrawBody, WithdrawRequest, WithdrawReply, pending_review, completed_now, checked, key_eq,
  lock_key, acquire, release, check_balance, check_limit, broadcast_result, broadcast_withdrawal,
  auto_reply, after_insert, submit, withdraw_locked, with_lock, withdraw,
}
use web3_blitz.Api.Withdraw.Submit.{inserted}
use web3_blitz.Api.Withdraw.Checks.{IsFunded, IsWithinLimit}
use web3_blitz.Api.Withdraw.Funds.{IsAccepted, withdraw_manual, withdraw-fail}
use web3_blitz.Api.Withdraw.Locked.{withdraw-held}
use web3_blitz.Api.Withdraw.Broadcast.{Pays}
use web3_blitz.Api.Withdraw.Decision.{with_margin, withdraw_complete, withdraw_again}
use web3_blitz.Api.Withdraw.Auto.{withdraw_auto_pending}
use web3_blitz.Tests.Data.{manual, auto, world, request, body, accepted}

abbrev pending_reply : WithdrawReply
pending_reply = record { id = 1; tx_id = none; fee = 0; status = pending_review }

abbrev pub completed_reply : WithdrawReply
completed_reply = record {
  id = 1;
  tx_id = some "0xaa";
  fee = 630000000000000;
  status = completed_now;
}

checked-request : (checked manual request world).0 ≡ ok accepted
unfolding checked
checked-request = refl

withdraw_runs : (withdraw manual request world).0 ≡ ok pending_reply
unfolding withdraw checked with_lock acquire release withdraw_locked check_balance check_limit
    submit after_insert try_read try_write create_withdrawal get_user_level get_withdrawal_limit
    get_total_deposit_by_user_id_and_chain get_total_withdrawal_by_user_id_and_chain
    get_last24h_withdrawal_by_user_and_chain has_row sum_by select find_row
withdraw_runs = refl

pub auto_runs : (withdraw auto request world).0 ≡ ok completed_reply
unfolding withdraw checked with_lock acquire release withdraw_locked check_balance check_limit
    submit after_insert auto_reply broadcast_withdrawal broadcast_result eth_withdraw eth_send
    try_read try_write create_withdrawal get_user_level get_withdrawal_limit
    get_total_deposit_by_user_id_and_chain get_total_withdrawal_by_user_id_and_chain
    get_last24h_withdrawal_by_user_and_chain has_row sum_by select find_row
auto_runs = refl

withdraw_manual_example :
    (q : WithdrawRequest) × IsAccepted manual request world q
    × ((withdraw manual request world).1.tables ≡ inserted 1000 q world.tables)
    × ((withdraw manual request world).1.sent ≡ [])
    × (pending_reply.status ≡ pending_review)
    × (pending_reply.id ≡ 1)
withdraw_manual_example = withdraw_manual manual request world refl withdraw_runs

-- Six ETH are more than the five that were deposited.
abbrev too_much : Request WithdrawBody
too_much = record request { body = some (record body { amount = pos (6 * coin) }) }

too_much_fails : (withdraw manual too_much world).0 ≡ fail wallet_insufficient_balance
unfolding withdraw checked with_lock acquire release withdraw_locked check_balance try_read
    get_total_deposit_by_user_id_and_chain get_total_withdrawal_by_user_id_and_chain has_row sum_by
    select
too_much_fails = refl

withdraw-fail_example :
    ((withdraw manual too_much world).1.tables ≡ world.tables)
    × ((withdraw manual too_much world).1.sent ≡ [])
withdraw-fail_example = withdraw-fail manual too_much world too_much_fails

-- etcd does not carry out the Revoke.
abbrev stuck : Env
stuck = record auto { revokes = false }

withdraw-held_example :
    ((withdraw stuck request world).1.held ≡ [])
    ⊎ ((q : WithdrawRequest) × ((checked stuck request world).0 ≡ ok q)
        × (stuck.revokes ≡ false)
        × (has_row (key_eq (lock_key q)) world.held ≡ false)
        × ((withdraw stuck request world).1.held ≡ lock_key q ∷ []))
withdraw-held_example = withdraw-held stuck request world

abbrev foreign : WithdrawBody
foreign = record body { chain = other "sol" }

-- Another request of the user on the chain is running.
abbrev busy : World
busy = record world { held = lock_key accepted ∷ [] }

checked-busy : (checked manual request busy).0 ≡ ok accepted
unfolding checked
checked-busy = refl

key_busy : has_row (key_eq (lock_key accepted)) busy.held ≡ true
unfolding has_row
key_busy = refl

key_free : has_row (key_eq (lock_key accepted)) world.held ≡ false
unfolding has_row
key_free = refl

funded : IsFunded (with_margin accepted) world.tables
unfolding sum_by select
funded = omega arith

within_limit : IsWithinLimit (with_margin accepted) world.now world.tables
unfolding get_user_level get_withdrawal_limit sum_by select find_row
within_limit = record {
  level = 0;
  limit = _;
  has_level = refl;
  has_limit = refl;
  covered = omega arith;
}

few : scan (deposited 7 eth world.tables) < 10000000 * coin
unfolding sum_by select
few = omega arith

withdraw_complete_example : is_ok (withdraw manual request world).0 ≡ true
withdraw_complete_example =
    withdraw_complete manual request world accepted refl refl refl checked-request key_free funded
      within_limit few

-- The state that the first of two requests leaves, with no outage to come.
abbrev after_first : World
after_first = record world { tables = (withdraw manual request world).1.tables }

withdraw_again_example : is_ok (withdraw manual request after_first).0 ≡ true
withdraw_again_example =
    withdraw_again manual request world after_first refl refl withdraw_runs refl refl refl refl

withdraw_auto_pending_example :
    (q : WithdrawRequest) × IsAccepted auto request world q
    × (tx : Sent) × Pays auto.node q.chain q.to_address q.amount tx
    × (completed_reply.tx_id ≡ some tx.tx_id)
    × (completed_reply.id ≡ 1)
    × ((withdraw auto request world).1.tables ≡ inserted 1000 q world.tables)
    × ((withdraw auto request world).1.sent ≡ tx ∷ [])
withdraw_auto_pending_example = withdraw_auto_pending auto request world auto_runs refl
