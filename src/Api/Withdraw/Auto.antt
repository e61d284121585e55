-- ===== src/Api/Withdraw/Auto.antt =====
-- `Withdraw` with WITHDRAWAL_AUTO_APPROVE=true: the broadcast follows the insert at once.
use web3_blitz.Base.{
  ℕ, ◌≡◌, inl, inr, refl, Option, none, some, List, [], ◌∷◌, ◌++◌, arith, ◌∙◌, ap, Bool-cases,
}
use web3_blitz.Db.Models.{Tables, Withdrawal}
use web3_blitz.Db.Withdrawals.{new_withdrawal, create_withdrawal}
use web3_blitz.Effects.{World, Sent, ok, try_write, is_down}
use web3_blitz.Wallet.Withdraw.{WithdrawResult}
use web3_blitz.Api.Request.{Request}
use web3_blitz.Api.Withdraw.{
  Env, WithdrawBody, WithdrawRequest, WithdrawReply, completed_now, broadcast_withdrawal,
  auto_reply, after_insert, submit, withdraw,
}
use web3_blitz.Api.Withdraw.Submit.{row_params, inserted, after_checks, after_checks-IsQuiet}
use web3_blitz.Api.Withdraw.Funds.{IsAccepted, locked, withdraw-IsAccepted}
use web3_blitz.Api.Withdraw.Broadcast.{Pays, broadcast-some}

auto_reply-completed :
    (q : WithdrawRequest) (id : ℕ) (x : Option WithdrawResult × World) {rep : WithdrawReply}
    → (auto_reply q id x).0 ≡ ok rep
    → rep.status ≡ completed_now
    → (res : WithdrawResult) × (x.0 ≡ some res)
      × (rep.tx_id ≡ some res.tx_id)
      × (rep.id ≡ id)
      × ((auto_reply q id x).1.tables ≡ x.1.tables)
      × ((auto_reply q id x).1.sent ≡ x.1.sent)
unfolding auto_reply
auto_reply-completed q id (none, w) h s = cc
auto_reply-completed q id (some res, w) h s = (res, refl, ground arith, ground arith, refl, refl)

after_insert-completed :
    (env : Env) (q : WithdrawRequest) (row : Withdrawal) (w : World) {rep : WithdrawReply}
    → (after_insert env q row w).0 ≡ ok rep
    → rep.status ≡ completed_now
    → (tx : Sent) × Pays env.node q.chain q.to_address q.amount tx
      × (rep.tx_id ≡ some tx.tx_id)
      × (rep.id ≡ row.id)
      × ((after_insert env q row w).1.tables ≡ w.tables)
      × ((after_insert env q row w).1.sent ≡ w.sent ++ tx ∷ [])
unfolding after_insert
after_insert-completed env q row w {rep} h s = elim (Bool-cases env.auto_approve) [
  | inr e ↦ absurd (ground arith)
  | inl e ↦
      let x = broadcast_withdrawal env row.id q.chain q.to_address q.amount w in
      let h' : (auto_reply q row.id x).0 ≡ ok rep = ground arith in
      let (res, found, tx_id, id, tables, sent) = auto_reply-completed q row.id x h' s in
      let (tx, pays, same, after) =
        broadcast-some env row.id q.chain q.to_address q.amount w found in
      (
        tx,
        pays,
        ground (arith, tx_id, same),
        id,
        ground (arith, tables, after),
        ground (arith, sent, after),
      )
]

submit_completed :
    (env : Env) (q : WithdrawRequest) (w : World) {rep : WithdrawReply}
    → (submit env q w).0 ≡ ok rep
    → rep.status ≡ completed_now
    → (tx : Sent) × Pays env.node q.chain q.to_address q.amount tx
      × (rep.tx_id ≡ some tx.tx_id)
      × (rep.id ≡ w.tables.withdrawal_seq)
      × ((submit env q w).1.tables ≡ inserted w.now q w.tables)
      × ((submit env q w).1.sent ≡ w.sent ++ tx ∷ [])
unfolding submit try_write create_withdrawal
submit_completed env q w {rep} h s = elim (Bool-cases (is_down w.outages)) [
  | inl e ↦ absurd (ground arith)
  | inr e ↦ rw e (
      after_insert-completed env q (new_withdrawal w.now w.tables.withdrawal_seq (row_params q)) _
        (rw e at h) s)
]

-- In the mode WITHDRAWAL_AUTO_APPROVE=true, a withdrawal that is reported as completed passed the
-- same checks and broadcast one transaction of the amount asked for, but the only change of the
-- database is one new row with the status pending: the row is not completed, so no later balance
-- check and no daily limit counts it, and it is still open to review.
pub withdraw_auto_pending :
    (env : Env) (r : Request WithdrawBody) (w : World) {rep : WithdrawReply}
    → (withdraw env r w).0 ≡ ok rep
    → rep.status ≡ completed_now
    → (q : WithdrawRequest) × IsAccepted env r w q
      × (tx : Sent) × Pays env.node q.chain q.to_address q.amount tx
      × (rep.tx_id ≡ some tx.tx_id)
      × (rep.id ≡ w.tables.withdrawal_seq)
      × ((withdraw env r w).1.tables ≡ inserted w.now q w.tables)
      × ((withdraw env r w).1.sent ≡ w.sent ++ tx ∷ [])
withdraw_auto_pending env r w h s =
    let (q, accepted, ran, tables, sent) = withdraw-IsAccepted env r w h in
    let v = after_checks q (locked q w) in
    let (same, now, _, sent', _) = after_checks-IsQuiet q (locked q w) in
    let (tx, pays, tx_id, id, t, s') = submit_completed env q v ran s in
    (
      q,
      accepted,
      tx,
      pays,
      tx_id,
      id ∙ ap (λ (t : Tables). t.withdrawal_seq) same,
      tables ∙ t ∙ ap (λ (n : ℕ). inserted n q v.tables) now ∙ ap (inserted w.now q) same,
      sent ∙ s' ∙ ap (λ (l : List Sent). l ++ tx ∷ []) sent',
    )
