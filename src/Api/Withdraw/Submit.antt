-- ===== src/Api/Withdraw/Submit.antt =====
-- What `Withdraw` does while it holds the lock.
use web3_blitz.Base.{ℕ, ◌≡◌, ◌≢◌, Option, none, some, false, arith, subst}
use web3_blitz.Db.Models.{Tables}
use web3_blitz.Db.Withdrawals.{CreateWithdrawalParams, create_withdrawal}
use web3_blitz.Code.{ErrorCode, internal}
use web3_blitz.Effects.{World, ok, fail, try_write, at_now, emit, withdraw_submitted}
use web3_blitz.Wallet.Withdraw.{WithdrawResult}
use web3_blitz.Money.{sprintf8}
use web3_blitz.Api.Withdraw.{
  Env, WithdrawRequest, WithdrawReply, pending_review, check_balance, check_limit, submit,
  after_insert, withdraw_locked, auto_reply, broadcast_withdrawal,
}
use web3_blitz.Api.Withdraw.Checks.{
  IsFunded, IsWithinLimit, IsQuiet, check_balance-IsQuiet, check_limit-IsQuiet,
  check_balance-IsFunded, check_limit-IsWithinLimit,
}

-- The row that is written for a request.
abbrev pub row_params : WithdrawRequest → CreateWithdrawalParams
row_params q = record {
  address = q.to_address;
  user_id = q.user;
  amount = sprintf8 q.amount;
  chain = q.chain;
}

abbrev pub inserted : ℕ → WithdrawRequest → Tables → Tables
inserted now q t = (create_withdrawal now (row_params q) t).1

-- Without auto-approval a submission that is answered has written the row and nothing else.
pub submit_manual :
    (env : Env) (q : WithdrawRequest) (w : World) {rep : WithdrawReply}
    → env.auto_approve ≡ false
    → (submit env q w).0 ≡ ok rep
    → ((submit env q w).1.tables ≡ inserted w.now q w.tables)
      × ((submit env q w).1.sent ≡ w.sent)
      × (rep.status ≡ pending_review)
      × (rep.id ≡ w.tables.withdrawal_seq)
unfolding submit after_insert try_write create_withdrawal
submit_manual env q w manual h = ground arith

-- The state in which the row is written.
abbrev pub after_checks : WithdrawRequest → World → World
after_checks q w = (check_limit q (check_balance q w).1).1

pub after_checks-IsQuiet : (q : WithdrawRequest) (w : World) → IsQuiet w (after_checks q w)
after_checks-IsQuiet q w =
    ground (arith, check_balance-IsQuiet q w, check_limit-IsQuiet q (check_balance q w).1)

-- A request that is answered has passed both checks, in the state before it.
pub withdraw_locked-ok :
    (env : Env) (q : WithdrawRequest) (w : World) {rep : WithdrawReply}
    → (withdraw_locked env q w).0 ≡ ok rep
    → IsFunded q w.tables
      × IsWithinLimit q w.now w.tables
      × (withdraw_locked env q w ≡ submit env q (after_checks q w))
withdraw_locked-ok env q w h =
    let (b, l, e) = passed in
    let (same, now, _, _, _) = check_balance-IsQuiet q w in
    (
      check_balance-IsFunded q w b,
      subst (λ (t : Tables). IsWithinLimit q w.now t) same
          (subst (λ (n : ℕ). IsWithinLimit q n (check_balance q w).1.tables) now
            (check_limit-IsWithinLimit q (check_balance q w).1 l)),
      e,
    )
  where
    passed :
        ((check_balance q w).0 ≡ ok tt)
        × ((check_limit q (check_balance q w).1).0 ≡ ok tt)
        × (withdraw_locked env q w ≡ submit env q (after_checks q w))
    passed = unfold withdraw_locked in ground arith

auto_reply-ne-fail :
    (q : WithdrawRequest) (id : ℕ) (x : Option WithdrawResult × World) (c : ErrorCode)
    → (auto_reply q id x).0 ≢ fail c
unfolding auto_reply
auto_reply-ne-fail q id (none, w) c h = cc
auto_reply-ne-fail q id (some res, w) c h = cc

-- A submission that fails has written and broadcast nothing.
submit-fail :
    (env : Env) (q : WithdrawRequest) (w : World) {c : ErrorCode}
    → (submit env q w).0 ≡ fail c
    → ((submit env q w).1.tables ≡ w.tables) × ((submit env q w).1.sent ≡ w.sent)
unfolding submit after_insert try_write create_withdrawal
submit-fail env q w {c} h =
    let w' = (at_now (λ now. try_write internal (create_withdrawal now (row_params q))) w).1 in
    ground (
      arith,
      auto_reply-ne-fail q w.tables.withdrawal_seq
          (broadcast_withdrawal env w.tables.withdrawal_seq q.chain q.to_address q.amount
            (emit (withdraw_submitted q.user q.chain (sprintf8 q.amount) q.to_address) w').1)
          c,
    )

pub withdraw_locked-fail :
    (env : Env) (q : WithdrawRequest) (w : World) {c : ErrorCode}
    → (withdraw_locked env q w).0 ≡ fail c
    → ((withdraw_locked env q w).1.tables ≡ w.tables) × ((withdraw_locked env q w).1.sent ≡ w.sent)
unfolding withdraw_locked
withdraw_locked-fail env q w {c} h = ground (
  arith,
  check_balance-IsQuiet q w,
  check_limit-IsQuiet q (check_balance q w).1,
  submit-fail env q (after_checks q w) {c = c},
)
