-- ===== src/Db/Withdrawals.antt =====
-- The queries of internal/db/queries.sql.go on the withdrawals and withdrawal_limits tables.
use mathlib.Core.List.{reverse}
use web3_blitz.Base.{
  ℕ, ◌+◌, Bool, ◌&&◌, Option, none, some, List, [], ◌∷◌, ◌++◌, String, ◌==◌, ltb, select, find_row,
  update_where, order_by, sum_by,
}
use web3_blitz.Base.Int.{ℤ}
use web3_blitz.Db.Models.{
  Chain, chain_eq, Status, pending, completed, status_eq, Withdrawal, WithdrawalLimit, Tables,
}

-- The parameters of `CreateWithdrawal`.
pub record CreateWithdrawalParams : Type 0 where
  pub address : String
  pub user_id : ℕ
  pub amount : ℕ
  pub chain : Chain

-- The row that `CreateWithdrawal` inserts, at the time `now`.
abbrev pub new_withdrawal : ℕ → ℕ → CreateWithdrawalParams → Withdrawal
new_withdrawal now id p = record {
  id = id;
  tx_id = none;
  address = p.address;
  user_id = p.user_id;
  amount = p.amount;
  fee = 0;
  status = pending;
  chain = p.chain;
  created_at = now;
}

-- INSERT ... RETURNING; the table has no unique column but its id.
unfoldable pub create_withdrawal : ℕ → CreateWithdrawalParams → Tables → Option Withdrawal × Tables
create_withdrawal now p t =
    let row = new_withdrawal now t.withdrawal_seq p in
    (
      some row,
      record t { withdrawals = t.withdrawals ++ row ∷ []; withdrawal_seq = t.withdrawal_seq + 1 },
    )

-- user_id = $1 AND chain = $2 AND status = 'completed'
abbrev pub is_completed_of : ℕ → Chain → Withdrawal → Bool
is_completed_of user chain w =
    w.user_id == user && chain_eq w.chain chain && status_eq w.status completed

-- SELECT COALESCE(SUM(amount), 0)
abbrev pub withdrawn : ℕ → Chain → Tables → ℕ
withdrawn user chain t = sum_by (λ w. w.amount) (select (is_completed_of user chain) t.withdrawals)

unfoldable pub get_total_withdrawal_by_user_id_and_chain : ℕ → Chain → Tables → Option ℕ
get_total_withdrawal_by_user_id_and_chain user chain t = some (withdrawn user chain t)

abbrev day : ℕ
day = 86400

-- ... AND created_at > NOW() - INTERVAL '24 hours'
abbrev pub is_recent_of : ℕ → ℕ → Chain → Withdrawal → Bool
is_recent_of now user chain w = is_completed_of user chain w && ltb now (w.created_at + day)

abbrev pub withdrawn_last24h : ℕ → ℕ → Chain → Tables → ℕ
withdrawn_last24h now user chain t =
    sum_by (λ w. w.amount) (select (is_recent_of now user chain) t.withdrawals)

unfoldable pub get_last24h_withdrawal_by_user_and_chain : ℕ → ℕ → Chain → Tables → Option ℕ
get_last24h_withdrawal_by_user_and_chain now user chain t =
    some (withdrawn_last24h now user chain t)

unfoldable pub list_pending_withdrawals : Tables → Option (List Withdrawal)
list_pending_withdrawals t = some (select (λ w. status_eq w.status pending) t.withdrawals)

pub list_withdrawals_by_user_id : ℕ → Tables → Option (List Withdrawal)
list_withdrawals_by_user_id user t = some (reverse (select (λ w. w.user_id == user) t.withdrawals))

-- The parameters of `AdminApproveRejectWithdrawal` and of `UpdateWithdrawalTx`.
pub record AdminApproveRejectWithdrawalParams : Type 0 where
  pub tx_id : Option String
  pub fee : ℕ
  pub status : Status
  pub id : ℕ

-- What the UPDATE sets; `updated_at` is not read by the program and left out.
abbrev pub set_outcome : AdminApproveRejectWithdrawalParams → Withdrawal → Withdrawal
set_outcome p w = record w { tx_id = p.tx_id; fee = p.fee; status = p.status }

unfoldable pub admin_approve_reject_withdrawal :
    AdminApproveRejectWithdrawalParams → Tables → Option (Unit {0}) × Tables
admin_approve_reject_withdrawal p t = (
  some tt,
  record t { withdrawals = update_where (λ w. w.id == p.id) (set_outcome p) t.withdrawals },
)

unfoldable pub get_withdrawal_limit : ℕ → Tables → Option WithdrawalLimit
get_withdrawal_limit level t = find_row (λ l. l.level == level) t.limits

pub list_withdrawal_limits : Tables → Option (List WithdrawalLimit)
list_withdrawal_limits t = some (order_by (λ l. l.level) t.limits)

pub update_withdrawal_limit : ℕ → ℤ → ℤ → Tables → Option (Unit {0}) × Tables
update_withdrawal_limit level btc eth t = (
  some tt,
  record t {
    limits =
        update_where (λ l. l.level == level) (λ l. record l { btc_daily = btc; eth_daily = eth })
          t.limits;
  },
)
