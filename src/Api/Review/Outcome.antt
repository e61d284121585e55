-- ===== src/Api/Review/Outcome.antt =====
-- What an administrator's review does to the row, on each way that it can end.
use web3_blitz.Base.{
  ℕ, ◌<◌, ◌≡◌, ◌⊎◌, inl, inr, refl, Option, none, some, [], ◌∷◌, ◌++◌, ◌==◌, arith, sym, subst, ap,
  ◌∙◌, List, Option-cases, Bool-cases, true, false, select, find_row,
}
use web3_blitz.Base.Int.{ℤ}
use web3_blitz.Code.{ErrorCode, wallet_broadcast_failed}
use web3_blitz.Db.Models.{pending, completed, rejected, status_eq, Withdrawal, Tables}
use web3_blitz.Db.Withdrawals.{
  AdminApproveRejectWithdrawalParams, list_pending_withdrawals, admin_approve_reject_withdrawal,
}
use web3_blitz.Effects.{
  World, Sent, ok, fail, try_read, ignore_write, is_down, after_query, queried, Reply,
}
use web3_blitz.Effects.Laws.{continue-ok, Reply-cases}
use web3_blitz.Money.{scan, sprintf8}
use web3_blitz.Wallet.Withdraw.{WithdrawResult}
use web3_blitz.Api.Request.{Method, Request, Claims}
use web3_blitz.Api.Withdraw.{Env, positive_part}
use web3_blitz.Api.Withdraw.Broadcast.{Pays, IsLost, IsMarked, broadcast-some, broadcast-none}
use web3_blitz.Api.Review.{
  ReviewReply, RejectBody, send_row, Reviewed, reviewed, approve_result, approve_withdrawal,
  reject_row, reject_withdrawal,
}

-- The row with this id that is still pending.
abbrev pub pending_row : ℕ → Tables → Option Withdrawal
pending_row id t =
    find_row (λ p. p.id == id) (select (λ w. status_eq w.status pending) t.withdrawals)

-- The tables after `AdminApproveRejectWithdrawal`.
abbrev pub settled : AdminApproveRejectWithdrawalParams → Tables → Tables
settled p t = (admin_approve_reject_withdrawal p t).1

abbrev pub completion : Withdrawal → WithdrawResult → AdminApproveRejectWithdrawalParams
completion row res = record {
  tx_id = some res.tx_id;
  fee = sprintf8 res.fee;
  status = completed;
  id = row.id;
}

abbrev pub rejection : Withdrawal → AdminApproveRejectWithdrawalParams
rejection row = record { tx_id = none; fee = 0; status = rejected; id = row.id }

-- What a review has established when it goes on.
pub record IsReviewed {B : Type 0} (id_of : B → ℤ) (r : Request B) (t : Tables) (x : Reviewed B)
    : Type 0 where
  pub claims : Claims
  pub is_post : r.method ≡ Method.post
  pub has_body : r.body ≡ some x.body
  pub has_claims : r.claims ≡ some claims
  pub admin : x.admin ≡ claims.user_id
  pub positive : 0 < positive_part (id_of x.body)
  pub found : pending_row (positive_part (id_of x.body)) t ≡ some x.row

module _ {B : Type 0} (id_of : B → ℤ) (r : Request B) (w : World) where
  pub reviewed-quiet :
      (reviewed id_of r w).1 ≡ record w { outages = (reviewed id_of r w).1.outages }
  unfolding reviewed try_read
  reviewed-quiet = ground arith

  -- A review that goes on has made one query.
  pub reviewed-outages :
      (x : Reviewed B)
      → (reviewed id_of r w).0 ≡ ok x
      → (reviewed id_of r w).1.outages ≡ after_query w.outages
  unfolding reviewed try_read
  reviewed-outages x h = ground arith

  pub reviewed-IsReviewed :
      (x : Reviewed B) → (reviewed id_of r w).0 ≡ ok x → IsReviewed id_of r w.tables x
  unfolding reviewed try_read list_pending_withdrawals
  reviewed-IsReviewed x h = elim (Option-cases r.claims) [
    | inl e ↦ absurd (ground arith)
    | inr (c, e) ↦ record {
      claims = c;
      is_post = ground arith;
      has_body = ground arith;
      has_claims = e;
      admin = ground arith;
      positive = ground arith;
      found = ground arith;
    }
  ]

pub approve_result-ok :
    (admin : ℕ) (row : Withdrawal) (x : Option WithdrawResult × World) {rep : ReviewReply}
    → (approve_result admin row x).0 ≡ ok rep
    → (res : WithdrawResult) × (x.0 ≡ some res)
      × (rep.id ≡ row.id)
      × (rep.tx_id ≡ some res.tx_id)
      × ((approve_result admin row x).1.sent ≡ x.1.sent)
      × (((is_down x.1.outages ≡ false)
            × ((approve_result admin row x).1.tables ≡ settled (completion row res) x.1.tables))
          ⊎ ((is_down x.1.outages ≡ true) × ((approve_result admin row x).1.tables ≡ x.1.tables)))
unfolding approve_result ignore_write
approve_result-ok admin row (none, w) h = cc
approve_result-ok admin row (some res, w) h = (
  res,
  refl,
  ground arith,
  ground arith,
  ground arith,
  elim (Bool-cases (is_down w.outages)) [
    | inl d ↦ inr (d, ground arith)
    | inr d ↦ inl (d, ground arith)
  ],
)

approve_result-fail :
    (admin : ℕ) (row : Withdrawal) (x : Option WithdrawResult × World) {c : ErrorCode}
    → (approve_result admin row x).0 ≡ fail c
    → (x.0 ≡ none)
      × (c ≡ wallet_broadcast_failed)
      × ((approve_result admin row x).1.sent ≡ x.1.sent)
      × ((approve_result admin row x).1.tables ≡ x.1.tables)
unfolding approve_result ignore_write
approve_result-fail admin row (none, w) h = (refl, ground arith, refl, refl)
approve_result-fail admin row (some res, w) h = cc

pub approve-ok :
    (env : Env) (r : Request ℤ) (w : World) {rep : ReviewReply}
    → (approve_withdrawal env r w).0 ≡ ok rep
    → (x : Reviewed ℤ) × IsReviewed (λ id. id) r w.tables x
      × (tx : Sent) × Pays env.node x.row.chain x.row.address (scan x.row.amount) tx
      × (res : WithdrawResult) × (res.tx_id ≡ tx.tx_id)
      × (rep.id ≡ x.row.id)
      × (rep.tx_id ≡ some tx.tx_id)
      × ((approve_withdrawal env r w).1.sent ≡ w.sent ++ tx ∷ [])
      × (((is_down (after_query w.outages) ≡ false)
            × ((approve_withdrawal env r w).1.tables ≡ settled (completion x.row res) w.tables))
          ⊎ ((is_down (after_query w.outages) ≡ true)
              × ((approve_withdrawal env r w).1.tables ≡ w.tables)))
unfolding approve_withdrawal
approve-ok env r w {rep} h =
    let id_of : ℤ → ℤ = λ id. id in
    let (x, found, e) = continue-ok (reviewed id_of r w) _ h in
    let v = (reviewed id_of r w).1 in
    let quiet = reviewed-quiet id_of r w in
    let queries = reviewed-outages id_of r w x found in
    let (res, done, id, tx_id, sent, tables) =
      approve_result-ok x.admin x.row (send_row env x.row v) {rep = rep} (rw (← e) h) in
    let (tx, pays, same, after) =
      broadcast-some env x.row.id x.row.chain x.row.address (scan x.row.amount) v done in
    (
      x,
      reviewed-IsReviewed id_of r w x found,
      tx,
      pays,
      res,
      sym same,
      id,
      ground (arith, tx_id, same),
      ground (arith, e, sent, after, quiet),
      elim tables [
        | inl (d, t) ↦ inl (ground (arith, after, queries), ground (arith, e, t, after, quiet))
        | inr (d, t) ↦ inr (ground (arith, after, queries), ground (arith, e, t, after, quiet))
      ],
    )

pub approve-fail :
    (env : Env) (r : Request ℤ) (w : World) {c : ErrorCode}
    → (approve_withdrawal env r w).0 ≡ fail c
    → (((reviewed (λ id. id) r w).0 ≡ fail c)
        × ((approve_withdrawal env r w).1.sent ≡ w.sent)
        × ((approve_withdrawal env r w).1.tables ≡ w.tables))
      ⊎ ((x : Reviewed ℤ) × IsReviewed (λ id. id) r w.tables x
          × (c ≡ wallet_broadcast_failed)
          × IsLost env x.row.chain x.row.address
              (scan x.row.amount)
              w.sent
              (approve_withdrawal env r w).1.sent
          × IsMarked x.row.id x.row.chain (queried w) (approve_withdrawal env r w).1.tables)
unfolding approve_withdrawal
approve-fail env r w {c} h =
    let id_of : ℤ → ℤ = λ id. id in
    let quiet = reviewed-quiet id_of r w in
    elim (Reply-cases (reviewed id_of r w).0) [
      | inr (d, e) ↦ inl (ground arith, ground arith, ground arith)
      | inl (x, e) ↦
          let v = (reviewed id_of r w).1 in
          let ran : approve_withdrawal env r w
              ≡ approve_result x.admin x.row (send_row env x.row v) =
            ground arith in
          let (none_sent, code, sent, tables) =
            approve_result-fail x.admin x.row (send_row env x.row v) {c = c}
              (ground (arith, ran)) in
          let (kept, marked) =
            broadcast-none env x.row.id x.row.chain x.row.address (scan x.row.amount) v none_sent in
          let same : v ≡ queried w = ground (arith, quiet, reviewed-outages id_of r w x e) in
          let sent' = ap (λ (y : Reply ReviewReply × World). y.1.sent) ran ∙ sent in
          let tables' = ap (λ (y : Reply ReviewReply × World). y.1.tables) ran ∙ tables in
          inr (
            x,
            reviewed-IsReviewed id_of r w x e,
            code,
            subst
                (λ (l : List Sent).
                  IsLost env x.row.chain x.row.address (scan x.row.amount) w.sent l)
                (sym sent')
                (subst
                  (λ (u : World).
                    IsLost env x.row.chain x.row.address (scan x.row.amount) u.sent
                      (send_row env x.row v).1.sent)
                  same kept),
            subst (λ (t : Tables). IsMarked x.row.id x.row.chain (queried w) t) (sym tables')
                (subst
                  (λ (u : World). IsMarked x.row.id x.row.chain u (send_row env x.row v).1.tables)
                  same marked),
          )
    ]

-- The tables that a rejection leaves: the row is rejected when the database answers the query that
-- says so, else nothing is changed.
abbrev pub IsSettled : Reviewed RejectBody → World → Tables → Type 0
IsSettled x w t =
    ((is_down (after_query w.outages) ≡ false) × (t ≡ settled (rejection x.row) w.tables))
    ⊎ ((is_down (after_query w.outages) ≡ true) × (t ≡ w.tables))

-- A rejection that is answered found a pending row with the id asked for, and has broadcast
-- nothing; the row is rejected when the database answers that second query, and only when it does
-- not, which the reply hides, are the tables as they were. A rejection that fails has broadcast
-- nothing and changed no table.
pub reject_outcome :
    (r : Request RejectBody) (w : World)
    → ((reject_withdrawal r w).1.sent ≡ w.sent)
      × ((((reject_withdrawal r w).1.tables ≡ w.tables)
            × ((c : ErrorCode) × ((reject_withdrawal r w).0 ≡ fail c)))
          ⊎ ((x : Reviewed RejectBody) × IsReviewed (λ b. b.id) r w.tables x
              × ((reject_withdrawal r w).0
                  ≡ ok (record { id = x.row.id; tx_id = none; status = rejected }))
              × IsSettled x w (reject_withdrawal r w).1.tables))
unfolding reject_withdrawal reject_row ignore_write
reject_outcome r w =
    let id_of : RejectBody → ℤ = λ b. b.id in
    let quiet = reviewed-quiet id_of r w in
    elim (Reply-cases (reviewed id_of r w).0) [
      | inr (d, e) ↦ (ground arith, inl (ground arith, (d, ground arith)))
      | inl (x, e) ↦
          let queries = reviewed-outages id_of r w x e in
          (
            ground (arith, quiet),
            inr (
              x,
              reviewed-IsReviewed id_of r w x e,
              ground arith,
              elim (Bool-cases (is_down (after_query w.outages))) [
                | inl d ↦ inr (d, ground (arith, quiet, queries))
                | inr d ↦ inl (d, ground (arith, quiet, queries))
              ],
            ),
          )
    ]

-- With a database that answers, an answered rejection has rejected the row that it names.
pub reject_settles :
    (r : Request RejectBody) (w : World) {rep : ReviewReply}
    → w.outages ≡ []
    → (reject_withdrawal r w).0 ≡ ok rep
    → (x : Reviewed RejectBody) × (rep.id ≡ x.row.id)
      × ((reject_withdrawal r w).1.tables ≡ settled (rejection x.row) w.tables)
      × ((reject_withdrawal r w).1.outages ≡ [])
      × ((reject_withdrawal r w).1.sent ≡ w.sent)
unfolding reject_withdrawal reject_row ignore_write
reject_settles r w {rep} up h =
    let id_of : RejectBody → ℤ = λ b. b.id in
    let (x, found, e) = continue-ok (reviewed id_of r w) _ h in
    let quiet = reviewed-quiet id_of r w in
    let queries = reviewed-outages id_of r w x found in
    (
      x,
      ground arith,
      ground (arith, quiet, queries),
      ground (arith, quiet, queries),
      ground (arith, quiet, queries),
    )
