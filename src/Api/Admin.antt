-- ===== src/Api/Admin.antt =====
-- internal/api/admin.go: the levels of users and the limits of levels.
pub mod Levels
use web3_blitz.Base.{ℕ, Bool, true, false, ◌||◌, Option, none, some, List, String, ltb}
use web3_blitz.Base.Int.{ℤ, pos, negsuc, ltb_ℤ}
use web3_blitz.Code.{invalid_arg, internal}
use web3_blitz.Db.Models.{WithdrawalLimit}
use web3_blitz.Db.Users.{ListUsersRow, list_users, update_user_level}
use web3_blitz.Db.Withdrawals.{list_withdrawal_limits, update_withdrawal_limit}
use web3_blitz.Effects.{
  World, Reply, ok, fail, Action, ◌>>=◌, ◌>>◌, pure, fail_if, or_fail, try_read, try_write,
}
use web3_blitz.Api.Request.{Method, Request, need_method, need_body}

-- `ListUsers`.
unfoldable list_all_users : {B : Type 0} → Request B → Action (List ListUsersRow)
list_all_users r = do need_method Method.get r; try_read internal list_users

pub record UpgradeBody : Type 0 where
  pub user_id : ℕ
  pub level : ℤ

-- A level that has passed the test.
abbrev to_level : ℤ → ℕ
to_level (pos n) = n
to_level (negsuc n) = 0

-- `UpgradeUser`; no row has an id below 1, so that negative ids are as good as 0.
pub upgrade_user : Request UpgradeBody → Action UpgradeBody
upgrade_user r = do
  need_method Method.post r
  b ← need_body r
  fail_if (ltb_ℤ b.level (pos 0) || ltb_ℤ (pos 3) b.level) invalid_arg
  try_write internal (update_user_level (to_level b.level) b.user_id)
  pure b

-- `ListWithdrawalLimits`.
unfoldable list_limits : {B : Type 0} → Request B → Action (List WithdrawalLimit)
list_limits r = do need_method Method.get r; try_read internal list_withdrawal_limits

-- The two amounts are texts that the database reads as NUMERIC, or refuses.
record LimitBody : Type 0 where
  pub level : ℕ
  pub btc_daily : Option ℤ
  pub eth_daily : Option ℤ

abbrev need_numeric : Option ℤ → Action ℤ
need_numeric o w = (or_fail o internal, w)

-- `UpdateWithdrawalLimit`: there is no test of the amounts but the database's.
unfoldable set_limit : Request LimitBody → Action LimitBody
set_limit r = do
  need_method Method.put r
  b ← need_body r
  btc ← need_numeric b.btc_daily
  eth ← need_numeric b.eth_daily
  try_write internal (update_withdrawal_limit b.level btc eth)
  pure b
