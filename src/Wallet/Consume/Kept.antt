-- ===== src/Wallet/Consume/Kept.antt =====
-- What the consumer leaves alone.
use web3_blitz.Base.{ℕ, zero, suc, ◌≡◌, refl, ◌∙◌, String, arith, Bool-cases, inl, inr}
use web3_blitz.Code.{internal}
use web3_blitz.Db.Models.{Tables}
use web3_blitz.Db.Deposits.{create_deposit, create_dead_letter}
use web3_blitz.Effects.{World, try_write, ignore_write}
use web3_blitz.Effects.Laws.{Reply-cases}
use web3_blitz.Wallet.Consume.{
  DepositRecord, deposit_params, insert_retry, bury, max_retries, consume,
}

-- The withdrawals are those from before.
abbrev KeepsWithdrawals : Tables → Tables → Type 0
KeepsWithdrawals t u = (u.withdrawals ≡ t.withdrawals) × (u.withdrawal_seq ≡ t.withdrawal_seq)

attempt-Keeps :
    (d : DepositRecord) (w : World)
    → KeepsWithdrawals w.tables (try_write internal (create_deposit (deposit_params d)) w).1.tables
unfolding try_write create_deposit
attempt-Keeps d w = ground arith

retry-Keeps :
    (n : ℕ) (d : DepositRecord) (w : World)
    → KeepsWithdrawals w.tables (insert_retry n d w).1.tables
unfolding insert_retry
retry-Keeps zero d w = (refl, refl)
retry-Keeps (suc n) d w =
    let x = try_write internal (create_deposit (deposit_params d)) w in
    let kept = attempt-Keeps d w in
    elim (Reply-cases x.0) [
      | inl (u, e) ↦ rw (e, insert_retry) kept
      | inr (c, e) ↦
          let later = retry-Keeps n d x.1 in
          rw (e, insert_retry) (later.0 ∙ kept.0, later.1 ∙ kept.1)
    ]

bury-Keeps :
    (kind : String) (d : DepositRecord) (w : World)
    → KeepsWithdrawals w.tables (bury kind d w).tables
unfolding bury ignore_write create_dead_letter
bury-Keeps kind d w = ground arith

pub consume-Keeps :
    (kind : String) (d : DepositRecord) (w : World)
    → KeepsWithdrawals w.tables (consume kind d w).tables
unfolding consume
consume-Keeps kind d w =
    let x = insert_retry max_retries d w in
    let kept = retry-Keeps max_retries d w in
    elim (Bool-cases x.0) [
      | inl e ↦ rw e kept
      | inr e ↦ let later = bury-Keeps kind d x.1 in rw e (later.0 ∙ kept.0, later.1 ∙ kept.1)
    ]
