-- ===== src/Api/Withdraw/Decision.antt =====
-- Which withdrawals are answered: the checks are sufficient too, and a repeated request passes them
-- again while its rows are pending.
use web3_blitz.Base.{
  ℕ, ◌+◌, ◌*◌, ◌<◌, ◌≡◌, refl, true, false, some, String, [], arith, subst, ◌∙◌, sym, ap, has_row,
  sum_by-select_append,
}
use web3_blitz.Code.{wallet_duplicate_withdraw}
use web3_blitz.Db.Models.{other, Tables}
use web3_blitz.Db.Deposits.{get_total_deposit_by_user_id_and_chain, deposited}
use web3_blitz.Db.Withdrawals.{
  new_withdrawal, create_withdrawal, withdrawn, withdrawn_last24h, is_completed_of, is_recent_of,
  get_total_withdrawal_by_user_id_and_chain, get_last24h_withdrawal_by_user_and_chain,
  get_withdrawal_limit,
}
use web3_blitz.Db.Users.{get_user_level}
use web3_blitz.Effects.{World, Reply, ok, fail, is_ok, try_read, try_write}
use web3_blitz.Money.{coin, unit8, scan}
use web3_blitz.Api.Request.{Request}
use web3_blitz.Api.Withdraw.{
  Env, WithdrawBody, WithdrawRequest, WithdrawReply, checked, key_eq, lock_key, acquire, release,
  check_balance, check_limit, submit, after_insert, withdraw_locked, with_lock, withdraw,
}
use web3_blitz.Api.Withdraw.Checks.{IsFunded, IsWithinLimit, check_balance-IsQuiet}
use web3_blitz.Api.Withdraw.Submit.{row_params, inserted, after_checks}
use web3_blitz.Api.Withdraw.Funds.{locked, withdraw-checked, withdraw-IsAccepted, withdraw_manual}

-- A withdrawal on a chain other than "btc" and "eth" is never answered with success: no case of
-- the switch sets its daily limit, which stays 0.
withdraw_other_chain :
    (env : Env) (r : Request WithdrawBody) (w : World) (b : WithdrawBody) (c : String)
    → r.body ≡ some b
    → b.chain ≡ other c
    → is_ok (withdraw env r w).0 ≡ false
withdraw_other_chain env r w b c body chain = refuted (withdraw env r w).0 (λ rep e. no rep e)
  where
    refuted : (x : Reply WithdrawReply) → ((rep : WithdrawReply) → x ≡ ok rep → ⊥) → is_ok x ≡ false
    refuted (ok a) h = absurd (h a refl)
    refuted (fail d) h = refl

    no : (rep : WithdrawReply) → (withdraw env r w).0 ≡ ok rep → ⊥
    no rep e =
        let (q, accepted, _, _, _) = withdraw-IsAccepted env r w e in
        let valid = accepted.valid in
        let chain' : q.chain ≡ other c = ground (arith, valid.chain, valid.has_body) in
        ground (arith, accepted.limited.covered, valid.positive, chain')

-- While the key of the caller and chain is in etcd, a withdrawal that passes the first checks is
-- refused as a duplicate, and the tables, the keys and the transactions stay as they are.
withdraw_duplicate :
    (env : Env) (r : Request WithdrawBody) (w : World) (q : WithdrawRequest)
    → (checked env r w).0 ≡ ok q
    → has_row (key_eq (lock_key q)) w.held ≡ true
    → ((withdraw env r w).0 ≡ fail wallet_duplicate_withdraw)
      × ((withdraw env r w).1.tables ≡ w.tables)
      × ((withdraw env r w).1.held ≡ w.held)
      × ((withdraw env r w).1.sent ≡ w.sent)
unfolding with_lock acquire
withdraw_duplicate env r w q c busy = rw (withdraw-checked env r w q c) (ground arith)

check_balance_complete :
    (q : WithdrawRequest) (w : World)
    → w.outages ≡ []
    → IsFunded q w.tables
    → ((check_balance q w).0 ≡ ok tt) × ((check_balance q w).1.outages ≡ [])
unfolding check_balance try_read get_total_deposit_by_user_id_and_chain
    get_total_withdrawal_by_user_id_and_chain
check_balance_complete q w up h = ground arith

check_limit_complete :
    (q : WithdrawRequest) (w : World)
    → w.outages ≡ []
    → IsWithinLimit q w.now w.tables
    → ((check_limit q w).0 ≡ ok tt) × ((check_limit q w).1.outages ≡ [])
unfolding check_limit try_read get_last24h_withdrawal_by_user_and_chain
check_limit_complete q w up h = ground (arith, h.has_level, h.has_limit, h.covered)

submit_complete :
    (env : Env) (q : WithdrawRequest) (w : World)
    → env.auto_approve ≡ false
    → w.outages ≡ []
    → is_ok (submit env q w).0 ≡ true
unfolding submit after_insert try_write create_withdrawal
submit_complete env q w manual up = ground arith

withdraw_locked_complete :
    (env : Env) (q : WithdrawRequest) (w : World)
    → env.auto_approve ≡ false
    → w.outages ≡ []
    → IsFunded q w.tables
    → IsWithinLimit q w.now w.tables
    → is_ok (withdraw_locked env q w).0 ≡ true
unfolding withdraw_locked
withdraw_locked_complete env q w manual up funded limited =
    let (passed, up') = check_balance_complete q w up funded in
    let v = (check_balance q w).1 in
    let (same, now, _, _, _) = check_balance-IsQuiet q w in
    let limited' : IsWithinLimit q v.now v.tables =
      subst (λ (t : Tables). IsWithinLimit q v.now t) (sym same)
        (subst (λ (n : ℕ). IsWithinLimit q n w.tables) (sym now) limited) in
    let (passed', up'') = check_limit_complete q v up' limited' in
    ground (arith, submit_complete env q (after_checks q w) manual up'')

-- In exact arithmetic the checks decide.
withdraw_exact :
    (env : Env) (r : Request WithdrawBody) (w : World) (q : WithdrawRequest)
    → env.auto_approve ≡ false
    → env.etcd_up ≡ true
    → w.outages ≡ []
    → (checked env r w).0 ≡ ok q
    → has_row (key_eq (lock_key q)) w.held ≡ false
    → IsFunded q w.tables
    → IsWithinLimit q w.now w.tables
    → is_ok (withdraw env r w).0 ≡ true
unfolding with_lock acquire release
withdraw_exact env r w q manual etcd up c free funded limited =
    rw (withdraw-checked env r w q c)
      (ground (arith, withdraw_locked_complete env q (locked q w) manual up funded limited))

-- The same request for 10^-8 coins more.
abbrev pub with_margin : WithdrawRequest → WithdrawRequest
with_margin q = record q { amount = q.amount + unit8 }

IsWithinLimit-margin :
    (q : WithdrawRequest) (now : ℕ) (t : Tables)
    → IsWithinLimit (with_margin q) now t
    → IsWithinLimit q now t
IsWithinLimit-margin q now t h = record {
  level = h.level;
  limit = h.limit;
  has_level = h.has_level;
  has_limit = h.has_limit;
  covered = omega (arith, h.covered);
}

-- The checks decide, away from the boundary: with manual review, a database and an etcd that
-- answer, a request that passes the first checks with a free lock is answered, when the balance
-- and the daily limit would cover 10^-8 coins more than it asks for, and the deposits are below ten
-- million coins. The code computes both checks in float64: within these margins its rounding errors
-- are too small to decide, while nearer to the boundary it may refuse what is covered, such as 0.2
-- with deposits of 0.3 and completed withdrawals of 0.1.
pub withdraw_complete :
    (env : Env) (r : Request WithdrawBody) (w : World) (q : WithdrawRequest)
    → env.auto_approve ≡ false
    → env.etcd_up ≡ true
    → w.outages ≡ []
    → (checked env r w).0 ≡ ok q
    → has_row (key_eq (lock_key q)) w.held ≡ false
    → IsFunded (with_margin q) w.tables
    → IsWithinLimit (with_margin q) w.now w.tables
    → scan (deposited q.user q.chain w.tables) < 10000000 * coin
    → is_ok (withdraw env r w).0 ≡ true
withdraw_complete env r w q manual etcd up c free funded limited small =
    withdraw_exact env r w q manual etcd up c free (omega (arith, funded))
      (IsWithinLimit-margin q w.now w.tables limited)

-- A pending row counts in no sum of the checks.
sums-inserted :
    (now : ℕ) (q : WithdrawRequest) (t : Tables)
    → (withdrawn q.user q.chain (inserted now q t) ≡ withdrawn q.user q.chain t)
      × (withdrawn_last24h now q.user q.chain (inserted now q t)
          ≡ withdrawn_last24h now q.user q.chain t)
unfolding create_withdrawal
sums-inserted now q t =
    let row = new_withdrawal now t.withdrawal_seq (row_params q) in
    (
      sum_by-select_append (λ w. w.amount) (is_completed_of q.user q.chain) t.withdrawals row
          (ground arith),
      sum_by-select_append (λ w. w.amount) (is_recent_of now q.user q.chain) t.withdrawals row
          (ground arith),
    )

IsFunded-inserted :
    (now : ℕ) (q : WithdrawRequest) (t : Tables) → IsFunded q t → IsFunded q (inserted now q t)
unfolding create_withdrawal
IsFunded-inserted now q t h = rw ((sums-inserted now q t).0) h

IsWithinLimit-inserted :
    (now : ℕ) (q : WithdrawRequest) (t : Tables)
    → IsWithinLimit q now t
    → IsWithinLimit q now (inserted now q t)
unfolding create_withdrawal get_user_level get_withdrawal_limit
IsWithinLimit-inserted now q t h = record {
  level = h.level;
  limit = h.limit;
  has_level = h.has_level;
  has_limit = h.has_limit;
  covered = rw ((sums-inserted now q t).1) h.covered;
}

checked_same :
    (env : Env) (r : Request WithdrawBody) (v w : World) → (checked env r v).0 ≡ (checked env r w).0
unfolding checked
checked_same env r v w = ground arith

-- With manual review a pending row reserves nothing: a request that was answered is answered again
-- in every state with the tables that it left, at the same time, with the same keys in etcd and a
-- database that answers. So any number of rows can be pending that only one balance covers.
pub withdraw_again :
    (env : Env) (r : Request WithdrawBody) (w v : World) {rep : WithdrawReply}
    → env.auto_approve ≡ false
    → env.etcd_up ≡ true
    → (withdraw env r w).0 ≡ ok rep
    → v.tables ≡ (withdraw env r w).1.tables
    → v.now ≡ w.now
    → v.held ≡ w.held
    → v.outages ≡ []
    → is_ok (withdraw env r v).0 ≡ true
withdraw_again env r w v manual etcd h same now held up =
    let (q, accepted, tables, _, _, _) = withdraw_manual env r w manual h in
    let moved = same ∙ tables in
    withdraw_exact env r v q manual etcd up (checked_same env r v w ∙ accepted.passed)
      (ap (has_row (key_eq (lock_key q))) held ∙ accepted.free)
      (subst (IsFunded q) (sym moved) (IsFunded-inserted w.now q w.tables accepted.funded))
      (subst (λ (t : Tables). IsWithinLimit q v.now t) (sym moved)
        (subst (λ (n : ℕ). IsWithinLimit q n (inserted w.now q w.tables)) (sym now)
          (IsWithinLimit-inserted w.now q w.tables accepted.limited)))
