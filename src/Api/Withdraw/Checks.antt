-- ===== src/Api/Withdraw/Checks.antt =====
-- The stages of `Withdraw`: what each has established when it lets the request pass, and what it
-- leaves alone.
use web3_blitz.Base.{ℕ, ◌+◌, ◌≤◌, ◌<◌, ◌≡◌, false, some, arith, Option-cases, inl, inr}
use web3_blitz.Base.Int.{pos, ◌≤ℤ◌}
use web3_blitz.Db.Models.{WithdrawalLimit, Tables}
use web3_blitz.Db.Deposits.{deposited, get_total_deposit_by_user_id_and_chain}
use web3_blitz.Db.Users.{get_user_level}
use web3_blitz.Db.Withdrawals.{
  withdrawn, withdrawn_last24h, get_total_withdrawal_by_user_id_and_chain,
  get_last24h_withdrawal_by_user_and_chain, get_withdrawal_limit,
}
use web3_blitz.Effects.{World, ok, try_read}
use web3_blitz.Money.{scan}
use web3_blitz.Api.Request.{Method, Request, Claims}
use web3_blitz.Api.Withdraw.{
  Env, WithdrawBody, WithdrawRequest, checked, over_single_limit, check_balance, check_limit,
  daily_limit,
}

-- Confirmed deposits cover completed withdrawals and this one.
abbrev pub IsFunded : WithdrawRequest → Tables → Type 0
IsFunded q t = scan (withdrawn q.user q.chain t) + q.amount ≤ scan (deposited q.user q.chain t)

-- The user's level has a limit that covers the last 24 hours and this withdrawal.
pub record IsWithinLimit (q : WithdrawRequest) (now : ℕ) (t : Tables) : Type 0 where
  pub level : ℕ
  pub limit : WithdrawalLimit
  pub has_level : get_user_level q.user t ≡ some level
  pub has_limit : get_withdrawal_limit level t ≡ some limit
  pub covered :
      pos (scan (withdrawn_last24h now q.user q.chain t) + q.amount) ≤ℤ daily_limit q.chain limit

-- The state is the one before, but for the answers of the database that are used up.
abbrev pub IsQuiet : World → World → Type 0
IsQuiet w w' =
    (w'.tables ≡ w.tables)
    × (w'.now ≡ w.now)
    × (w'.held ≡ w.held)
    × (w'.sent ≡ w.sent)
    × (w'.log ≡ w.log)

pub check_balance-IsQuiet : (q : WithdrawRequest) (w : World) → IsQuiet w (check_balance q w).1
unfolding check_balance try_read
check_balance-IsQuiet q w = ground arith

pub check_limit-IsQuiet : (q : WithdrawRequest) (w : World) → IsQuiet w (check_limit q w).1
unfolding check_limit try_read
check_limit-IsQuiet q w = ground arith

pub check_balance-IsFunded :
    (q : WithdrawRequest) (w : World) {u : Unit {0}}
    → (check_balance q w).0 ≡ ok u
    → IsFunded q w.tables
unfolding check_balance try_read get_total_deposit_by_user_id_and_chain
    get_total_withdrawal_by_user_id_and_chain
check_balance-IsFunded q w h = ground arith

pub check_limit-IsWithinLimit :
    (q : WithdrawRequest) (w : World) {u : Unit {0}}
    → (check_limit q w).0 ≡ ok u
    → IsWithinLimit q w.now w.tables
unfolding check_limit try_read get_last24h_withdrawal_by_user_and_chain
check_limit-IsWithinLimit q w h = elim (Option-cases (get_user_level q.user w.tables)) [
  | inl e ↦ absurd (ground arith)
  | inr (level, e) ↦ elim (Option-cases (get_withdrawal_limit level w.tables)) [
    | inl e' ↦ absurd (ground arith)
    | inr (limit, e') ↦ record {
      level = level;
      limit = limit;
      has_level = e;
      has_limit = e';
      covered = ground arith;
    }
  ]
]

-- A request that passes the tests above the lock: what it asks for and who asks.
pub record IsChecked (env : Env) (r : Request WithdrawBody) (q : WithdrawRequest) : Type 0 where
  pub body : WithdrawBody
  pub claims : Claims
  pub is_post : r.method ≡ Method.post
  pub has_body : r.body ≡ some body
  pub has_claims : r.claims ≡ some claims
  pub user : q.user ≡ claims.user_id
  pub address : q.to_address ≡ body.to_address
  pub chain : q.chain ≡ body.chain
  pub amount : body.amount ≡ pos q.amount
  pub positive : 0 < q.amount
  pub single : over_single_limit q.chain q.amount ≡ false

pub checked-eq_self : (env : Env) (r : Request WithdrawBody) (w : World) → (checked env r w).1 ≡ w
unfolding checked
checked-eq_self env r w = ground arith

pub checked-IsChecked :
    (env : Env) (r : Request WithdrawBody) (w : World) (q : WithdrawRequest)
    → (checked env r w).0 ≡ ok q
    → IsChecked env r q
unfolding checked
checked-IsChecked env r w q h = elim (Option-cases r.body) [
  | inl e ↦ absurd (ground arith)
  | inr (b, e) ↦ elim (Option-cases r.claims) [
    | inl e' ↦ absurd (ground arith)
    | inr (c, e') ↦ record {
      body = b;
      claims = c;
      is_post = ground arith;
      has_body = e;
      has_claims = e';
      user = ground arith;
      address = ground arith;
      chain = ground arith;
      amount = ground arith;
      positive = ground arith;
      single = ground arith;
    }
  ]
]
