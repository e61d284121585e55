-- ===== src/Api/Ledger/Deposits.antt =====
-- The requests on withdrawals leave the deposits alone.
use web3_blitz.Base.{◌≡◌, refl, ap, inl, inr, List}
use web3_blitz.Db.Models.{Deposit, Tables}
use web3_blitz.Db.Withdrawals.{
  AdminApproveRejectWithdrawalParams, create_withdrawal, admin_approve_reject_withdrawal,
}
use web3_blitz.Effects.{World}
use web3_blitz.Effects.Laws.{Reply-cases}
use web3_blitz.Api.Withdraw.{withdraw}
use web3_blitz.Api.Withdraw.Funds.{withdraw-fail}
use web3_blitz.Api.Withdraw.Change.{withdraw-tables}
use web3_blitz.Api.Review.{approve_withdrawal}
use web3_blitz.Api.Review.Outcome.{settled, approve-ok, approve-fail, reject_outcome}
use web3_blitz.Api.Ledger.{Call, apply}

abbrev rows : Tables → List Deposit
rows t = t.deposits

settled-rows : (p : AdminApproveRejectWithdrawalParams) (t : Tables) → rows (settled p t) ≡ rows t
unfolding admin_approve_reject_withdrawal
settled-rows p t = refl

pub apply-deposits : (c : Call) (w : World) → (apply c w).tables.deposits ≡ w.tables.deposits
unfolding apply create_withdrawal admin_approve_reject_withdrawal
apply-deposits (Call.withdraw_call env r) w = elim (Reply-cases (withdraw env r w).0) [
  | inr (c, e) ↦ ap rows (withdraw-fail env r w {c = c} e).0
  | inl (rep, e) ↦
      let (q, _, t) = withdraw-tables env r w {rep = rep} e in
      elim t [ inl i ↦ ap rows i | inr i ↦ ap rows i ]
]
apply-deposits (Call.approve_call env r) w = elim (Reply-cases (approve_withdrawal env r w).0) [
  | inr (c, e) ↦ elim (approve-fail env r w {c = c} e) [
    | inl (_, _, i) ↦ ap rows i
    | inr (x, found, _, _, m) ↦ elim m [ inl (_, i) ↦ ap rows i | inr (_, i) ↦ ap rows i ]
  ]
  | inl (rep, e) ↦
      let (x, found, tx, _, res, id, _, _, out, t) = approve-ok env r w {rep = rep} e in
      elim t [ inl (_, i) ↦ ap rows i | inr (_, i) ↦ ap rows i ]
]
apply-deposits (Call.reject_call r) w =
    let (_, t) = reject_outcome r w in
    elim t [
      | inl (i, _) ↦ ap rows i
      | inr (x, found, _, j) ↦ elim j [ inl (_, i) ↦ ap rows i | inr (_, i) ↦ ap rows i ]
    ]
apply-deposits (Call.wait n) w = refl
apply-deposits (Call.outage l) w = refl
apply-deposits (Call.leases l) w = refl
