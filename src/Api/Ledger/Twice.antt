-- ===== src/Api/Ledger/Twice.antt =====
-- A withdrawal that was broadcast at once is still open to approval, which pays it a second time.
use web3_blitz.Base.{
  ℕ, ◌==◌, false, refl, ◌≡◌, ◌<◌, Option, some, none, [], ◌∷◌, ◌++◌, arith, ap, ◌∙◌, sym, subst,
}
use web3_blitz.Base.Int.{ℤ, pos}
use web3_blitz.Code.{ErrorCode}
use web3_blitz.Db.Models.{completed, Withdrawal, Tables}
use web3_blitz.Db.Withdrawals.{new_withdrawal, create_withdrawal, list_pending_withdrawals}
use web3_blitz.Effects.{World, Sent, ok, try_read, ignore_write}
use web3_blitz.Money.{scan, sprintf8}
use web3_blitz.Wallet.Withdraw.{WithdrawResult}
use web3_blitz.Api.Request.{Method, Request, Claims}
use web3_blitz.Api.Withdraw.{
  Env, WithdrawBody, WithdrawRequest, WithdrawReply, completed_now, checked, withdraw,
}
use web3_blitz.Api.Withdraw.Submit.{row_params, inserted}
use web3_blitz.Api.Withdraw.Broadcast.{Pays}
use web3_blitz.Api.Withdraw.Auto.{withdraw_auto_pending}
use web3_blitz.Api.Review.{send_row, reviewed, approve_result, approve_withdrawal}
use web3_blitz.Api.Review.Outcome.{pending_row, approve-ok}
use web3_blitz.Api.Ledger.Rows.{HasFreshIds}
use web3_blitz.Api.Ledger.Change.{find_inserted}

-- The state after the list of pending rows has been read.
abbrev pub after_list : World → World
after_list w = (try_read ErrorCode.internal list_pending_withdrawals w).1

-- A review finds its row when the request is well formed and the database answers.
reviewed_complete :
    (r : Request ℤ) (w : World) (id : ℕ) (c : Claims) (row : Withdrawal)
    → r.method ≡ Method.post
    → r.body ≡ some (pos id)
    → 0 < id
    → r.claims ≡ some c
    → w.outages ≡ []
    → pending_row id w.tables ≡ some row
    → reviewed (λ id. id) r w
      ≡ (ok (record { body = pos id; admin = c.user_id; row = row }), after_list w)
unfolding reviewed try_read list_pending_withdrawals
reviewed_complete r w id c row m b p cl up f =
    let nonzero : (id == 0) ≡ false = ground arith in
    simp (m, b) (simp nonzero (simp cl (ground (arith, f))))

pub approve_result_complete :
    (admin : ℕ) (row : Withdrawal) (res : WithdrawResult) (x : Option WithdrawResult × World)
    → x.0 ≡ some res
    → (approve_result admin row x).0
      ≡ ok (record { id = row.id; tx_id = some res.tx_id; status = completed })
unfolding approve_result ignore_write
approve_result_complete admin row res (none, w) e = cc
approve_result_complete admin row res (some q, w) e = ground arith

approve_complete :
    (env : Env) (r : Request ℤ) (w : World) (id : ℕ) (c : Claims) (row : Withdrawal)
    (res : WithdrawResult)
    → r.method ≡ Method.post
    → r.body ≡ some (pos id)
    → 0 < id
    → r.claims ≡ some c
    → w.outages ≡ []
    → pending_row id w.tables ≡ some row
    → (send_row env row (after_list w)).0 ≡ some res
    → (approve_withdrawal env r w).0
      ≡ ok (record { id = row.id; tx_id = some res.tx_id; status = completed })
unfolding approve_withdrawal
approve_complete env r w id c row res m b p cl up f s =
    rw (reviewed_complete r w id c row m b p cl up f)
      (approve_result_complete c.user_id row res (send_row env row (after_list w)) s)

row_found :
    (now : ℕ) (q : WithdrawRequest) (t : Tables)
    → HasFreshIds t
    → pending_row t.withdrawal_seq (inserted now q t)
      ≡ some (new_withdrawal now t.withdrawal_seq (row_params q))
unfolding create_withdrawal
row_found now q t h =
    find_inserted (new_withdrawal now t.withdrawal_seq (row_params q)) t.withdrawals refl h.below

-- A withdrawal that auto-approval has reported as completed has sent one transaction of the amount
-- to the address asked for, and can be approved: when an administrator approves the id that it
-- reported, in any state with the tables that it left and with a database that answers, and the
-- broadcast of that row succeeds, the approval is answered as completed, and a second transaction
-- to the same address is sent, of the amount as it was stored.
pub withdraw_auto_twice :
    (env : Env) (r : Request WithdrawBody) (w : World) (rep : WithdrawReply) (env' : Env)
    (r' : Request ℤ) (v : World) (c : Claims) (q : WithdrawRequest) (res : WithdrawResult)
    → HasFreshIds w.tables
    → (withdraw env r w).0 ≡ ok rep
    → rep.status ≡ completed_now
    → v.tables ≡ (withdraw env r w).1.tables
    → v.outages ≡ []
    → r'.method ≡ Method.post
    → r'.body ≡ some (pos rep.id)
    → 0 < rep.id
    → r'.claims ≡ some c
    → (checked env r w).0 ≡ ok q
    → (send_row env' (new_withdrawal w.now w.tables.withdrawal_seq (row_params q)) (after_list v)).0
      ≡ some res
    → (tx : Sent) × (tx' : Sent) × ((withdraw env r w).1.sent ≡ w.sent ++ tx ∷ [])
      × Pays env.node q.chain q.to_address q.amount tx
      × ((approve_withdrawal env' r' v).0
          ≡ ok (record { id = rep.id; tx_id = some res.tx_id; status = completed }))
      × ((approve_withdrawal env' r' v).1.sent ≡ v.sent ++ tx' ∷ [])
      × Pays env'.node q.chain q.to_address (scan (sprintf8 q.amount)) tx'
withdraw_auto_twice env r w rep env' r' v c q res fresh h done same up m b p cl passed s =
    let (q', accepted, tx, pays_first, _, id, t, sent) =
      withdraw_auto_pending env r w {rep = rep} h done in
    let q_same : q' ≡ q = ground (arith, accepted.passed, passed) in
    let t' = same ∙ t ∙ ap (λ (x : WithdrawRequest). inserted w.now x w.tables) q_same in
    let row = new_withdrawal w.now w.tables.withdrawal_seq (row_params q) in
    let found : pending_row rep.id v.tables ≡ some row = rw id (
      subst (λ (u : Tables). pending_row w.tables.withdrawal_seq u ≡ some row) (sym t')
        (row_found w.now q w.tables fresh)) in
    let answer = approve_complete env' r' v rep.id c row res m b p cl up found s in
    let (x, reviewed_x, tx', pays, _, _, _, _, sent', _) = approve-ok env' r' v answer in
    let row_same : x.row ≡ row = ground (arith, reviewed_x.found, reviewed_x.has_body, b, found) in
    (
      tx,
      tx',
      sent,
      subst (λ (y : WithdrawRequest). Pays env.node y.chain y.to_address y.amount tx) q_same
          pays_first,
      answer
          ∙ ap (λ (n : ℕ). ok (record { id = n; tx_id = some res.tx_id; status = completed }))
              (sym id),
      sent',
      subst (λ (y : Withdrawal). Pays env'.node y.chain y.address (scan y.amount) tx') row_same
          pays,
    )
