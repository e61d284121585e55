-- ===== src/Api/Withdraw.antt =====
-- internal/api/wallet.go: `Withdraw` and `broadcastWithdrawal`.
pub mod Checks
pub mod Submit
pub mod Locked
pub mod Funds
pub mod Decision
pub mod Broadcast
pub mod Auto
pub mod Change
use web3_blitz.Base.{
  ℕ, ◌+◌, ◌*◌, ◌-◌, Bool, true, false, not, ◌&&◌, ◌||◌, Option, none, some, [], ◌∷◌, ◌++◌, String,
  ◌==◌, ltb, str_eq, select, has_row, if◌then◌else◌,
}
use web3_blitz.Base.Int.{ℤ, pos, negsuc, sub_ℕ, ltb_ℤ}
use web3_blitz.Code.{
  invalid_arg, internal, wallet_insufficient_balance, wallet_daily_limit_exceeded,
  wallet_duplicate_withdraw,
}
use web3_blitz.Db.Models.{
  Chain, btc, eth, other, chain_eq, completed, failed, Withdrawal, WithdrawalLimit,
}
use web3_blitz.Db.Deposits.{get_total_deposit_by_user_id_and_chain}
use web3_blitz.Db.Users.{get_user_level}
use web3_blitz.Db.Withdrawals.{
  create_withdrawal, get_total_withdrawal_by_user_id_and_chain,
  get_last24h_withdrawal_by_user_and_chain, get_withdrawal_limit, admin_approve_reject_withdrawal,
}
use web3_blitz.Effects.{
  World, Reply, ok, fail, Action, ◌>>=◌, ◌>>◌, pure, fail_if, at_now, try_read, try_write,
  ignore_write, emit, LockKey, lock_acquire_fail, withdraw_total, withdraw_amount,
  withdraw_submitted, withdraw_completed, withdraw_failed,
}
use web3_blitz.Money.{coin, unit8, scan, sprintf8}
use web3_blitz.Wallet.Node.{Node}
use web3_blitz.Wallet.Withdraw.{WithdrawResult, btc_withdraw, eth_withdraw}
use web3_blitz.Api.Request.{Method, Request, need_method, need_body, need_claims}

-- What the service's environment answers in one request.
pub record Env : Type 0 where
  pub node : Node
  pub hot_key : Bool  -- ETH_HOT_WALLET_KEY is a valid key
  pub auto_approve : Bool  -- WITHDRAWAL_AUTO_APPROVE is "true"
  pub etcd_up : Bool  -- etcd answers Grant and Txn without an error
  pub lost_txn : Bool  -- etcd carries out a Txn that returns an error
  pub revokes : Bool  -- etcd carries out a Revoke

pub record WithdrawBody : Type 0 where
  pub to_address : String
  pub amount : ℤ
  pub chain : Chain

-- A request that has passed the checks above the lock.
pub record WithdrawRequest : Type 0 where
  pub user : ℕ
  pub to_address : String
  pub amount : ℕ
  pub chain : Chain

-- A positive amount, or 0.
abbrev pub positive_part : ℤ → ℕ
positive_part (pos n) = n
positive_part (negsuc n) = 0

abbrev is_eth : Chain → Bool
is_eth eth = true
is_eth _ = false

-- `maxSingleBTC` and `maxSingleETH`; another chain has no case in the switch.
abbrev over_single_limit : Chain → ℕ → Bool
over_single_limit btc amount = ltb coin amount
over_single_limit eth amount = ltb (10 * coin) amount
over_single_limit (other c) amount = false

-- The tests from the method down to the limit on one withdrawal, in the order of the handler.
unfoldable pub checked : Env → Request WithdrawBody → Action WithdrawRequest
checked env r = do
  need_method Method.post r
  req ← need_body r
  fail_if (str_eq req.to_address "" || positive_part req.amount == 0) invalid_arg
  fail_if (is_eth req.chain && not (env.node.is_hex_address req.to_address)) invalid_arg
  claims ← need_claims r
  fail_if (over_single_limit req.chain (positive_part req.amount)) wallet_insufficient_balance
  pure (record {
    user = claims.user_id;
    to_address = req.to_address;
    amount = positive_part req.amount;
    chain = req.chain;
  })

abbrev pub key_eq : LockKey → LockKey → Bool
key_eq a b = a.user == b.user && chain_eq a.chain b.chain

abbrev pub lock_key : WithdrawRequest → LockKey
lock_key q = record { user = q.user; chain = q.chain }

-- A transaction has written the key although its answer was an error, and the Revoke that follows
-- is not carried out either.
abbrev left_behind : Env → Bool
left_behind env = not env.etcd_up && env.lost_txn && not env.revokes

-- `h.locker.Acquire`: the key is written when it is not there. On an error the lease is revoked.
unfoldable pub acquire : Env → LockKey → Action (Unit {0})
acquire env k w =
    let free = not (has_row (key_eq k) w.held) in
    if env.etcd_up && free then (ok tt, record w { held = k ∷ w.held }) else (
      fail wallet_duplicate_withdraw,
      record w {
        held = if left_behind env && free then k ∷ w.held else w.held;
        log = w.log ++ lock_acquire_fail k ∷ [];
      },
    )

-- `defer l.Release(...)`, however the handler ends: the key goes with its lease, unless the Revoke
-- fails, whose error is dropped; then the key stays until the lease runs out.
unfoldable pub release : {A : Type 0} → Env → LockKey → Reply A × World → Reply A × World
release env k (r, w) =
    (r, record w { held = if env.revokes then select (λ j. not (key_eq k j)) w.held else w.held })

-- The balance check: confirmed deposits less completed withdrawals. The source computes this
-- difference, and the sum in the check of the limit, in float64; here both are exact, so the two
-- can differ when the amounts meet within some 10^-9 coins.
unfoldable pub check_balance : WithdrawRequest → Action (Unit {0})
check_balance q = do
  deposit ← try_read internal (get_total_deposit_by_user_id_and_chain q.user q.chain)
  withdrawal ← try_read internal (get_total_withdrawal_by_user_id_and_chain q.user q.chain)
  fail_if (ltb_ℤ (sub_ℕ (scan deposit) (scan withdrawal)) (pos q.amount))
      wallet_insufficient_balance

abbrev scan_ℤ : ℤ → ℤ
scan_ℤ (pos n) = pos (scan n)
scan_ℤ (negsuc n) = negsuc (scan n + (unit8 - 1))

-- `dailyLimit`: it stays 0 for a chain without a case.
abbrev daily_limit : Chain → WithdrawalLimit → ℤ
daily_limit btc l = scan_ℤ l.btc_daily
daily_limit eth l = scan_ℤ l.eth_daily
daily_limit (other c) l = pos 0

-- The check of the daily limit.
unfoldable pub check_limit : WithdrawRequest → Action (Unit {0})
check_limit q = do
  level ← try_read internal (get_user_level q.user)
  limit ← try_read internal (get_withdrawal_limit level)
  used ←
      at_now
        (λ now. try_read internal (get_last24h_withdrawal_by_user_and_chain now q.user q.chain))
  fail_if (ltb_ℤ (daily_limit q.chain limit) (pos (scan used + q.amount)))
      wallet_daily_limit_exceeded

abbrev mark_failed : ℕ → Action (Unit {0})
mark_failed id =
    ignore_write
      (admin_approve_reject_withdrawal (record { tx_id = none; fee = 0; status = failed; id = id }))

-- What `broadcastWithdrawal` does with the answer of a wallet: an error is written to the row.
unfoldable pub broadcast_result : ℕ → Option WithdrawResult × World → Option WithdrawResult × World
broadcast_result id (none, w) = (none, (mark_failed id w).1)
broadcast_result id (some res, w) = (some res, w)

unfoldable pub broadcast_withdrawal :
    Env → ℕ → Chain → String → ℕ → World → Option WithdrawResult × World
broadcast_withdrawal env id btc to amount w =
    broadcast_result id (btc_withdraw env.node to amount w)
broadcast_withdrawal env id eth to amount w =
    broadcast_result id (eth_withdraw env.hot_key env.node to amount w)
broadcast_withdrawal env id (other c) to amount w = (none, w)

pub data ReplyStatus : Type 0 where
  completed_now failed_now pending_review : ReplyStatus

-- The fields of the answer that differ from the request's.
pub record WithdrawReply : Type 0 where
  pub id : ℕ
  pub tx_id : Option String
  pub fee : ℕ
  pub status : ReplyStatus

-- The answer in the mode WITHDRAWAL_AUTO_APPROVE=true, after the broadcast.
unfoldable pub auto_reply :
    WithdrawRequest → ℕ → Option WithdrawResult × World → Reply WithdrawReply × World
auto_reply q id (none, w) =
    (do
      emit (withdraw_total q.chain failed)
      emit (withdraw_failed q.user q.chain (sprintf8 q.amount))
      pure (record { id = id; tx_id = none; fee = 0; status = failed_now }))
      w
auto_reply q id (some res, w) =
    (do
      emit (withdraw_total q.chain completed)
      emit (withdraw_amount q.chain q.amount)
      emit (withdraw_completed q.user q.chain (sprintf8 q.amount) res.tx_id)
      pure (record { id = id; tx_id = some res.tx_id; fee = res.fee; status = completed_now }))
      w

-- After the row is written: broadcast at once, or leave the row to an administrator.
unfoldable pub after_insert : Env → WithdrawRequest → Withdrawal → Action WithdrawReply
after_insert env q row w =
    if env.auto_approve
    then auto_reply q row.id (broadcast_withdrawal env row.id q.chain q.to_address q.amount w)
    else (ok (record { id = row.id; tx_id = none; fee = 0; status = pending_review }), w)

-- `CreateWithdrawal`, its audit call and what follows.
unfoldable pub submit : Env → WithdrawRequest → Action WithdrawReply
submit env q = do
  row ← at_now (λ now. try_write internal (
      create_withdrawal now (record {
        address = q.to_address;
        user_id = q.user;
        amount = sprintf8 q.amount;
        chain = q.chain;
      })))
  emit (withdraw_submitted q.user q.chain (sprintf8 q.amount) q.to_address)
  after_insert env q row

-- What runs while the lock is held.
unfoldable pub withdraw_locked : Env → WithdrawRequest → Action WithdrawReply
withdraw_locked env q = do check_balance q; check_limit q; submit env q

unfoldable pub with_lock : {A : Type 0} → Env → LockKey → Action A → Action A
with_lock env k m = do acquire env k; λ w. release env k (m w)

-- `Withdraw`.
unfoldable pub withdraw : Env → Request WithdrawBody → Action WithdrawReply
withdraw env r = do q ← checked env r; with_lock env (lock_key q) (withdraw_locked env q)
