-- ===== src/Api/Review.antt =====
-- internal/api/wallet.go: `ListPendingWithdrawals`, `ApproveWithdrawal` and `RejectWithdrawal`.
pub mod Outcome
use web3_blitz.Base.{ℕ, Option, none, some, List, String, ◌==◌, str_eq, find_row, if◌then◌else◌}
use web3_blitz.Base.Int.{ℤ}
use web3_blitz.Code.{invalid_arg, internal, wallet_broadcast_failed, wallet_invalid_status}
use web3_blitz.Db.Models.{Status, completed, failed, rejected, Withdrawal}
use web3_blitz.Db.Withdrawals.{list_pending_withdrawals, admin_approve_reject_withdrawal}
use web3_blitz.Effects.{
  World, Reply, fail, Action, ◌>>=◌, ◌>>◌, pure, fail_if, or_fail, try_read, ignore_write, emit,
  withdraw_total, withdraw_amount, withdraw_failed, withdraw_approved, withdraw_rejected,
}
use web3_blitz.Money.{scan, sprintf8}
use web3_blitz.Wallet.Withdraw.{WithdrawResult}
use web3_blitz.Api.Request.{Method, Request, need_method, need_body, need_claims}
use web3_blitz.Api.Withdraw.{Env, positive_part, broadcast_withdrawal}

unfoldable list_pending : {B : Type 0} → Request B → Action (List Withdrawal)
list_pending r = do need_method Method.get r; try_read internal list_pending_withdrawals

-- The search in the pending rows, with its error.
unfoldable pub need_pending : ℕ → List Withdrawal → Action Withdrawal
need_pending id rows w = (or_fail (find_row (λ p. p.id == id) rows) wallet_invalid_status, w)

pub record ReviewReply : Type 0 where
  pub id : ℕ
  pub tx_id : Option String
  pub status : Status

-- After the broadcast of an approved row.
unfoldable pub approve_result :
    ℕ → Withdrawal → Option WithdrawResult × World → Reply ReviewReply × World
approve_result admin row (none, w) =
    (do
      emit (withdraw_total row.chain failed)
      emit (withdraw_failed row.user_id row.chain row.amount)
      λ v. (fail wallet_broadcast_failed, v))
      w
approve_result admin row (some res, w) =
    (do
      ignore_write (
          admin_approve_reject_withdrawal (record {
            tx_id = some res.tx_id;
            fee = sprintf8 res.fee;
            status = completed;
            id = row.id;
          }))
      emit (withdraw_total row.chain completed)
      emit (withdraw_amount row.chain (scan row.amount))
      emit (withdraw_approved row.user_id row.chain row.amount res.tx_id admin)
      pure (record { id = row.id; tx_id = some res.tx_id; status = completed }))
      w

-- A review that has found its row.
pub record Reviewed (B : Type 0) : Type 0 where
  pub body : B
  pub admin : ℕ
  pub row : Withdrawal

-- The first part of `ApproveWithdrawal` and of `RejectWithdrawal`, which is the same text in both:
-- the method, the body, a positive id, the claims, and the row among the pending ones.
unfoldable pub reviewed : {B : Type 0} → (B → ℤ) → Request B → Action (Reviewed B)
unfolding need_pending
reviewed id_of r = do
  need_method Method.post r
  body ← need_body r
  fail_if (positive_part (id_of body) == 0) invalid_arg
  claims ← need_claims r
  rows ← try_read internal list_pending_withdrawals
  row ← need_pending (positive_part (id_of body)) rows
  pure (record { body = body; admin = claims.user_id; row = row })

-- The broadcast of a reviewed row.
abbrev pub send_row : Env → Withdrawal → World → Option WithdrawResult × World
send_row env row = broadcast_withdrawal env row.id row.chain row.address (scan row.amount)

-- `ApproveWithdrawal`; the body is the id.
unfoldable pub approve_withdrawal : Env → Request ℤ → Action ReviewReply
approve_withdrawal env r = do
  x ← reviewed (λ id. id) r
  λ w. approve_result x.admin x.row (send_row env x.row w)

pub record RejectBody : Type 0 where
  pub id : ℤ
  pub reason : String

-- The text that stands for an empty reason.
abbrev reason_or_default : String → String
reason_or_default s = if str_eq s "" then "管理员拒绝" else s

unfoldable pub reject_row : ℕ → String → Withdrawal → Action ReviewReply
reject_row admin reason row = do
  ignore_write (
      admin_approve_reject_withdrawal
        (record { tx_id = none; fee = 0; status = rejected; id = row.id }))
  emit (withdraw_total row.chain rejected)
  emit (withdraw_rejected row.user_id row.chain row.amount admin reason)
  pure (record { id = row.id; tx_id = none; status = rejected })

-- `RejectWithdrawal`.
unfoldable pub reject_withdrawal : Request RejectBody → Action ReviewReply
reject_withdrawal r = do
  x ← reviewed (λ b. b.id) r
  reject_row x.admin (reason_or_default x.body.reason) x.row
