-- ===== src/Api/Ledger/Solvency.antt =====
-- A request on withdrawals keeps them covered by deposits, when a user's withdrawals come one at a time.
use web3_blitz.Base.{
  ℕ, ◌+◌, ◌≤◌, ◌≡◌, refl, false, ◌&&◌, none, some, select, find_row-holds, [], ◌==◌, ==-true, arith,
  Bool-cases, inl, inr, has_row, sym, ◌∙◌, subst,
}
use web3_blitz.Db.Models.{Chain, chain_eq, pending, failed, status_eq, Withdrawal, Tables}
use web3_blitz.Db.Deposits.{deposited}
use web3_blitz.Db.Withdrawals.{
  AdminApproveRejectWithdrawalParams, create_withdrawal, new_withdrawal, withdrawn,
  admin_approve_reject_withdrawal,
}
use web3_blitz.Effects.{World, ok}
use web3_blitz.Effects.Laws.{Reply-cases}
use web3_blitz.Money.{sprintf8}
use web3_blitz.Api.Withdraw.{WithdrawRequest, checked, withdraw}
use web3_blitz.Api.Withdraw.Checks.{IsFunded}
use web3_blitz.Api.Withdraw.Submit.{row_params, inserted}
use web3_blitz.Api.Withdraw.Funds.{withdraw-fail}
use web3_blitz.Api.Withdraw.Change.{withdraw-tables}
use web3_blitz.Api.Withdraw.Broadcast.{marked_failed}
use web3_blitz.Api.Review.{approve_withdrawal}
use web3_blitz.Api.Review.Outcome.{
  settled, completion, rejection, approve-ok, approve-fail, reject_outcome,
}
use web3_blitz.Api.Ledger.{Call, apply}
use web3_blitz.Api.Ledger.Rows.{HasFreshIds}
use web3_blitz.Api.Ledger.Pending.{find_pending, find_pending-IsPendingAt}
use web3_blitz.Api.Ledger.Change.{find_inserted, inserted-Change, Change-HasFreshIds}
use web3_blitz.Api.Ledger.Charged.{
  is_pending_of, chain_eq-true, sprintf8-fits, charge, charged, charged-append, charged-settle,
  charged_completed,
}

-- For every user and chain, completed and pending withdrawals are covered by confirmed deposits.
abbrev pub IsSolvent : Tables → Type 0
IsSolvent t = (user : ℕ) (chain : Chain) → charged user chain t.withdrawals ≤ deposited user chain t

-- A request comes when its user has no pending withdrawal on its chain.
abbrev pub IsAlone : Call → World → Type 0
IsAlone (Call.withdraw_call env r) w =
    (q : WithdrawRequest)
    → (checked env r w).0 ≡ ok q
    → has_row (is_pending_of q.user q.chain) w.tables.withdrawals ≡ false
IsAlone _ w = Unit

settled-IsSolvent :
    (p : AdminApproveRejectWithdrawalParams) (a : Withdrawal) (t : Tables)
    → HasFreshIds t
    → find_pending p.id t.withdrawals ≡ some a
    → IsSolvent t
    → IsSolvent (settled p t)
unfolding admin_approve_reject_withdrawal
settled-IsSolvent p a t fresh found h user chain = omega (
  arith,
  h user chain,
  charged-settle user chain p.id p t.withdrawals
      (find_pending-IsPendingAt p.id a t.withdrawals fresh.increasing found),
)

inserted-IsSolvent :
    (now : ℕ) (q : WithdrawRequest) (t : Tables)
    → IsFunded q t
    → has_row (is_pending_of q.user q.chain) t.withdrawals ≡ false
    → IsSolvent t
    → IsSolvent (inserted now q t)
unfolding create_withdrawal
inserted-IsSolvent now q t funded alone h user chain =
    let a = new_withdrawal now t.withdrawal_seq (row_params q) in
    let more = charged-append user chain t.withdrawals a in
    elim (Bool-cases (q.user == user && chain_eq q.chain chain)) [
      | inr e ↦
          let free : charge user chain a ≡ 0 = ground arith in
          omega (arith, h user chain, more, free)
      | inl e ↦
          let same_user : q.user ≡ user = ground arith in
          let same_chain = chain_eq-true q.chain chain (ground arith) in
          let taken : charge user chain a ≡ sprintf8 q.amount = ground arith in
          let before : charged user chain t.withdrawals ≡ withdrawn user chain t =
            charged_completed user chain t.withdrawals (rw same_user at (rw same_chain at alone)) in
          let fits : withdrawn user chain t + sprintf8 q.amount ≤ deposited user chain t =
            rw same_user at (
              rw same_chain at (
                sprintf8-fits (withdrawn q.user q.chain t) q.amount (deposited q.user q.chain t)
                  funded)) in
          omega (arith, more, taken, before, fits)
    ]

-- The row that has just been inserted fails.
marked-IsSolvent :
    (now : ℕ) (q : WithdrawRequest) (t : Tables)
    → HasFreshIds t
    → IsSolvent (inserted now q t)
    → IsSolvent (marked_failed t.withdrawal_seq (inserted now q t))
unfolding create_withdrawal
marked-IsSolvent now q t fresh h =
    settled-IsSolvent (record { tx_id = none; fee = 0; status = failed; id = t.withdrawal_seq })
      (new_withdrawal now t.withdrawal_seq (row_params q)) (inserted now q t)
      (Change-HasFreshIds (inserted-Change [] now q t) fresh)
      (find_inserted (new_withdrawal now t.withdrawal_seq (row_params q)) t.withdrawals refl
        fresh.below)
      h

-- The outcome of a review is written to the row that was found.
reviewed-IsSolvent :
    (k : ℕ) (a : Withdrawal) (p : AdminApproveRejectWithdrawalParams) (t : Tables)
    → HasFreshIds t
    → find_pending k t.withdrawals ≡ some a
    → p.id ≡ a.id
    → IsSolvent t
    → IsSolvent (settled p t)
unfolding select
reviewed-IsSolvent k a p t fresh f e h =
    let rows = select (λ w. status_eq w.status pending) t.withdrawals in
    let same_id : a.id ≡ k = ==-true a.id k (find_row-holds (λ x. x.id == k) a rows f) in
    settled-IsSolvent p a t fresh
      (subst (λ (n : ℕ). find_pending n t.withdrawals ≡ some a) (sym (e ∙ same_id)) f) h

moved : {t u : Tables} → u ≡ t → IsSolvent t → IsSolvent u
moved e h = subst IsSolvent (sym e) h

pub apply-IsSolvent :
    (c : Call) (w : World)
    → HasFreshIds w.tables
    → IsAlone c w
    → IsSolvent w.tables
    → IsSolvent (apply c w).tables
unfolding apply
apply-IsSolvent (Call.withdraw_call env r) w fresh alone h =
    elim (Reply-cases (withdraw env r w).0) [
      | inr (c, e) ↦ moved (withdraw-fail env r w {c = c} e).0 h
      | inl (rep, e) ↦
          let (q, accepted, t) = withdraw-tables env r w {rep = rep} e in
          let h' =
            inserted-IsSolvent w.now q w.tables accepted.funded (alone q accepted.passed) h in
          elim t [
            | inl i ↦ moved i h'
            | inr i ↦ moved i (marked-IsSolvent w.now q w.tables fresh h')
          ]
    ]
apply-IsSolvent (Call.approve_call env r) w fresh alone h =
    elim (Reply-cases (approve_withdrawal env r w).0) [
      | inr (c, e) ↦ elim (approve-fail env r w {c = c} e) [
        | inl (_, _, i) ↦ moved i h
        | inr (x, found, _, _, m) ↦ elim m [
          | inl (_, i) ↦ moved i (reviewed-IsSolvent _ x.row _ w.tables fresh found.found refl h)
          | inr (_, i) ↦ moved i h
        ]
      ]
      | inl (rep, e) ↦
          let (x, found, tx, _, res, id, _, _, out, t) = approve-ok env r w {rep = rep} e in
          elim t [
            | inl (_, i) ↦ moved i (
                reviewed-IsSolvent _ x.row (completion x.row res) w.tables fresh found.found refl h)
            | inr (_, i) ↦ moved i h
          ]
    ]
apply-IsSolvent (Call.reject_call r) w fresh alone h =
    let (_, t) = reject_outcome r w in
    elim t [
      | inl (i, _) ↦ moved i h
      | inr (x, found, _, j) ↦ elim j [
        | inl (_, i) ↦
            moved i (reviewed-IsSolvent _ x.row (rejection x.row) w.tables fresh found.found refl h)
        | inr (_, i) ↦ moved i h
      ]
    ]
apply-IsSolvent (Call.wait n) w fresh alone h = h
apply-IsSolvent (Call.outage l) w fresh alone h = h
apply-IsSolvent (Call.leases l) w fresh alone h = h
