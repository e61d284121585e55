-- ===== src/Api/Ledger/Race.antt =====
-- Two reviews of one row at the same time: `ApproveWithdrawal` reads the pending rows before it
-- broadcasts and updates, without a lock, and its UPDATE does not test the status again.
use web3_blitz.Base.{
  ℕ, ◌≡◌, inl, inr, Option, none, some, List, [], ◌∷◌, ◌++◌, ◌==◌, ==-true, arith, Bool-cases,
  find_row, find_row-holds, select, update_where, sym, ap, ◌∙◌, subst,
}
use web3_blitz.Base.Int.{ℤ}
use web3_blitz.Db.Models.{pending, completed, rejected, status_eq, Withdrawal, Tables}
use web3_blitz.Db.Withdrawals.{
  AdminApproveRejectWithdrawalParams, set_outcome, admin_approve_reject_withdrawal,
}
use web3_blitz.Effects.{World, Sent, ok}
use web3_blitz.Money.{scan}
use web3_blitz.Wallet.Withdraw.{WithdrawResult}
use web3_blitz.Api.Request.{Request}
use web3_blitz.Api.Withdraw.{Env}
use web3_blitz.Api.Withdraw.Broadcast.{Pays, broadcast-some}
use web3_blitz.Api.Review.{
  ReviewReply, RejectBody, Reviewed, reviewed, send_row, approve_result, approve_withdrawal,
  reject_withdrawal,
}
use web3_blitz.Api.Review.Outcome.{
  pending_row, settled, completion, rejection, reviewed-quiet, reviewed-outages,
  reviewed-IsReviewed, approve_result-ok, reject_settles,
}
use web3_blitz.Api.Ledger.Rows.{HasFreshIds}
use web3_blitz.Api.Ledger.Pending.{find_pending, IsPendingAt, find_pending-IsPendingAt}
use web3_blitz.Api.Ledger.Twice.{approve_result_complete}

-- The row with this id.
abbrev pub row_at : ℕ → Tables → Option Withdrawal
row_at id t = find_row (λ p. p.id == id) t.withdrawals

find_row-settled :
    (k : ℕ) (p : AdminApproveRejectWithdrawalParams) (a : Withdrawal) (l : List Withdrawal)
    → find_row (λ w. w.id == k) l ≡ some a
    → find_row (λ w. w.id == k) (update_where (λ w. w.id == k) (set_outcome p) l)
      ≡ some (set_outcome p a)
unfolding find_row update_where
find_row-settled k p a [] h = cc
find_row-settled k p a (x ∷ l) h = ground (arith, find_row-settled k p a l)

row_at-settled :
    (p : AdminApproveRejectWithdrawalParams) (a : Withdrawal) (t : Tables)
    → row_at p.id t ≡ some a
    → row_at p.id (settled p t) ≡ some (set_outcome p a)
unfolding admin_approve_reject_withdrawal
row_at-settled p a t h = find_row-settled p.id p a t.withdrawals h

find_row-pending :
    (k : ℕ) (a : Withdrawal) (l : List Withdrawal)
    → IsPendingAt k l
    → find_pending k l ≡ some a
    → find_row (λ w. w.id == k) l ≡ some a
unfolding find_row select
find_row-pending k a [] h f = cc
find_row-pending k a (x ∷ l) h f = elim (Bool-cases (x.id == k)) [
  | inl e ↦ let p = h.0 e in ground (arith, p)
  | inr e ↦ ground (arith, find_row-pending k a l h.1)
]

-- A row that a review has found stands in the table under its own id.
found_at :
    (k : ℕ) (a : Withdrawal) (t : Tables)
    → HasFreshIds t
    → pending_row k t ≡ some a
    → row_at a.id t ≡ some a
unfolding select
found_at k a t fresh f =
    let rows = select (λ w. status_eq w.status pending) t.withdrawals in
    let same : a.id ≡ k = ==-true a.id k (find_row-holds (λ x. x.id == k) a rows f) in
    subst (λ (n : ℕ). row_at n t ≡ some a) (sym same)
      (find_row-pending k a t.withdrawals
        (find_pending-IsPendingAt k a t.withdrawals fresh.increasing f) f)

-- An approval is its reading part and then the broadcast with the update. When a whole rejection of
-- the same row comes between the two, with a database that answers, then the row is rejected before
-- the broadcast, yet the approval is answered as completed when its broadcast succeeds: one
-- transaction pays the row's amount to its address, and the row that was rejected is completed.
pub approve_reject_race :
    (env : Env) (r : Request ℤ) (r' : Request RejectBody) (w : World) (x : Reviewed ℤ)
    {rep : ReviewReply} (res : WithdrawResult)
    → HasFreshIds w.tables
    → w.outages ≡ []
    → (reviewed (λ id. id) r w).0 ≡ ok x
    → (reject_withdrawal r' (reviewed (λ id. id) r w).1).0 ≡ ok rep
    → rep.id ≡ x.row.id
    → (send_row env x.row (reject_withdrawal r' (reviewed (λ id. id) r w).1).1).0 ≡ some res
    → let read = (reviewed (λ id. id) r w).1 in
      let v = (reject_withdrawal r' read).1 in
      let y = approve_result x.admin x.row (send_row env x.row v) in
      (approve_withdrawal env r w ≡ approve_result x.admin x.row (send_row env x.row read))
      × (row_at x.row.id v.tables ≡ some (set_outcome (rejection x.row) x.row))
      × (y.0 ≡ ok (record { id = x.row.id; tx_id = some res.tx_id; status = completed }))
      × (row_at x.row.id y.1.tables ≡ some (set_outcome (completion x.row res) x.row))
      × (tx : Sent) × Pays env.node x.row.chain x.row.address (scan x.row.amount) tx
      × (y.1.sent ≡ w.sent ++ tx ∷ [])
unfolding approve_withdrawal
approve_reject_race env r r' w x {rep} res fresh up read_ok rejected_ok same_id sends =
    let id_of : ℤ → ℤ = λ id. id in
    let read = (reviewed id_of r w).1 in
    let v = (reject_withdrawal r' read).1 in
    let found = (reviewed-IsReviewed id_of r w x read_ok).found in
    let quiet = reviewed-quiet id_of r w in
    let read_up : read.outages ≡ [] = ground (arith, reviewed-outages id_of r w x read_ok) in
    let tables : read.tables ≡ w.tables = ap (λ (y : World). y.tables) quiet in
    let at_w = found_at _ x.row w.tables fresh found in
    let at_read : row_at x.row.id read.tables ≡ some x.row = ap (row_at x.row.id) tables ∙ at_w in
    let (x', id, settled_v, up_v, sent_v) =
      reject_settles r' read {rep = rep} read_up rejected_ok in
    let rejected_t : v.tables ≡ settled (rejection x.row) read.tables =
      settled_v
      ∙ ap
          (λ (n : ℕ).
            settled (record { tx_id = none; fee = 0; status = rejected; id = n }) read.tables)
          (sym id ∙ same_id) in
    let at_v : row_at x.row.id v.tables ≡ some (set_outcome (rejection x.row) x.row) =
      ap (row_at x.row.id) rejected_t
      ∙ row_at-settled (rejection x.row) x.row read.tables at_read in
    let y = approve_result x.admin x.row (send_row env x.row v) in
    let answer = approve_result_complete x.admin x.row res (send_row env x.row v) sends in
    let (res', sends', _, _, sent_y, tables_y) =
      approve_result-ok x.admin x.row (send_row env x.row v) answer in
    let (tx, pays, _, after) =
      broadcast-some env x.row.id x.row.chain x.row.address (scan x.row.amount) v sends in
    let same_res : res' ≡ res = ground (arith, sends, sends') in
    let tables_v : (send_row env x.row v).1.tables ≡ v.tables =
      ap (λ (u : World). u.tables) after in
    let done : y.1.tables ≡ settled (completion x.row res) v.tables = elim tables_y [
      | inl (_, t) ↦
          t
          ∙ ap (settled (completion x.row res')) tables_v
          ∙ ap (λ (q : WithdrawResult). settled (completion x.row q) v.tables) same_res
      | inr (d, _) ↦ absurd (ground (arith, d, after, up_v))
    ] in
    (
      ground (arith, read_ok),
      at_v,
      answer,
      ap (row_at x.row.id) done
          ∙ row_at-settled (completion x.row res) (set_outcome (rejection x.row) x.row) v.tables
              at_v,
      tx,
      pays,
      sent_y
          ∙ ap (λ (u : World). u.sent) after
          ∙ ap (λ (l : List Sent). l ++ tx ∷ []) (sent_v ∙ ap (λ (u : World). u.sent) quiet),
    )
