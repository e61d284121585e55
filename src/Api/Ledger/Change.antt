-- ===== src/Api/Ledger/Change.antt =====
-- The changes that the withdrawals table can go through, and that each request makes only these.
use mathlib.Core.List.{append-nil}
use web3_blitz.Base.{
  ℕ, ◌+◌, ◌<◌, ◌≡◌, ◌⊎◌, inl, inr, refl, Option, none, some, List, String, [], ◌∷◌, ◌++◌, ◌==◌,
  ==-true, arith, select, find_row, find_row-holds, All, ap, ◌∙◌, sym, subst,
}
use web3_blitz.Db.Models.{pending, failed, completed, status_eq, Withdrawal, Tables}
use web3_blitz.Db.Withdrawals.{
  AdminApproveRejectWithdrawalParams, create_withdrawal, new_withdrawal,
  admin_approve_reject_withdrawal,
}
use web3_blitz.Effects.{World, Sent}
use web3_blitz.Effects.Laws.{Reply-cases}
use web3_blitz.Api.Withdraw.{WithdrawRequest, withdraw}
use web3_blitz.Api.Withdraw.Submit.{row_params, inserted}
use web3_blitz.Api.Withdraw.Funds.{withdraw-fail}
use web3_blitz.Api.Withdraw.Change.{Extends, withdraw-tables, withdraw-sent}
use web3_blitz.Api.Withdraw.Broadcast.{marked_failed}
use web3_blitz.Api.Review.{approve_withdrawal, reject_withdrawal}
use web3_blitz.Api.Review.Outcome.{
  settled, completion, rejection, approve-ok, approve-fail, reject_outcome,
}
use web3_blitz.Api.Ledger.{Call, apply}
use web3_blitz.Api.Ledger.Rows.{
  HasFreshIds, IsIncreasing-append, All-weaken, All-below_append, settle, settle-IsIncreasing,
  settle-below,
}
use web3_blitz.Api.Ledger.Pending.{find_pending}

abbrev pub In : Sent → List Sent → Type 0
In a [] = ⊥
In a (x ∷ l) = (a ≡ x) ⊎ In a l

-- A transaction with this id has been broadcast.
abbrev pub IsBroadcast : Option String → List Sent → Type 0
IsBroadcast id s = (tx : Sent) × In tx s × (id ≡ some tx.tx_id)

-- One change, with the transactions sent by its end: a pending row is appended with a new id, or
-- an outcome is written to a pending row, and the outcome "completed" with a transaction's id.
pub data Change (sent : List Sent) (t u : Tables) : Type 0 where
  same : u.withdrawals ≡ t.withdrawals → u.withdrawal_seq ≡ t.withdrawal_seq → Change sent t u
  insert :
      (a : Withdrawal)
      → a.id ≡ t.withdrawal_seq
      → a.status ≡ pending
      → u.withdrawals ≡ t.withdrawals ++ a ∷ []
      → u.withdrawal_seq ≡ t.withdrawal_seq + 1
      → Change sent t u
  settle_row :
      (p : AdminApproveRejectWithdrawalParams) (a : Withdrawal)
      → find_pending p.id t.withdrawals ≡ some a
      → (p.status ≡ completed → IsBroadcast p.tx_id sent)
      → u.withdrawals ≡ settle p.id p t.withdrawals
      → u.withdrawal_seq ≡ t.withdrawal_seq
      → Change sent t u

pub data Changes (sent : List Sent) (t u : Tables) : Type 0 where
  one : Change sent t u → Changes sent t u
  two : (v : Tables) → Change sent t v → Change sent v u → Changes sent t u

pub Change-HasFreshIds :
    {s : List Sent} {t u : Tables} → Change s t u → HasFreshIds t → HasFreshIds u
Change-HasFreshIds (same e s) h = record {
  increasing = rw e h.increasing;
  below = rw (e, s) h.below;
}
Change-HasFreshIds {t} (insert a id st e s) h = record {
  increasing = rw e (IsIncreasing-append t.withdrawals a h.increasing (rw id h.below));
  below =
      rw (e, s)
        (All-below_append (t.withdrawal_seq + 1) t.withdrawals a
          (All-weaken t.withdrawal_seq (t.withdrawal_seq + 1) t.withdrawals (omega arith) h.below)
          (omega arith));
}
Change-HasFreshIds {t} (settle_row p a f b e s) h = record {
  increasing = rw e (settle-IsIncreasing p.id p t.withdrawals h.increasing);
  below = rw (e, s) (settle-below p.id p t.withdrawal_seq t.withdrawals h.below);
}

pub Changes-HasFreshIds :
    {s : List Sent} {t u : Tables} → Changes s t u → HasFreshIds t → HasFreshIds u
Changes-HasFreshIds (one c) h = Change-HasFreshIds c h
Changes-HasFreshIds (two v c d) h = Change-HasFreshIds d (Change-HasFreshIds c h)

-- The row that was just inserted is found by its id.
pub find_inserted :
    (a : Withdrawal) (l : List Withdrawal)
    → a.status ≡ pending
    → All (λ x. x.id < a.id) l
    → find_pending a.id (l ++ a ∷ []) ≡ some a
unfolding find_row select
find_inserted a [] s h = ground arith
find_inserted a (x ∷ l) s h = ground (arith, find_inserted a l s h.1)

module _ (sent : List Sent) where
  -- The outcome of a review is written to the row that was found.
  settled-Change :
      (k : ℕ) (a : Withdrawal) (p : AdminApproveRejectWithdrawalParams) (t : Tables)
      → find_pending k t.withdrawals ≡ some a
      → p.id ≡ a.id
      → (p.status ≡ completed → IsBroadcast p.tx_id sent)
      → Change sent t (settled p t)
  unfolding admin_approve_reject_withdrawal
  settled-Change k a p t f e b =
      let rows = select (λ w. status_eq w.status pending) t.withdrawals in
      let same_id : a.id ≡ k = ==-true a.id k (find_row-holds (λ x. x.id == k) a rows f) in
      settle_row p a
        (subst (λ (n : ℕ). find_pending n t.withdrawals ≡ some a) (sym (e ∙ same_id)) f) b refl refl

  pub inserted-Change :
      (now : ℕ) (q : WithdrawRequest) (t : Tables) → Change sent t (inserted now q t)
  unfolding create_withdrawal
  inserted-Change now q t =
      insert (new_withdrawal now t.withdrawal_seq (row_params q)) refl refl refl refl

  marked-Change :
      (now : ℕ) (q : WithdrawRequest) (t : Tables)
      → HasFreshIds t
      → Change sent (inserted now q t) (marked_failed t.withdrawal_seq (inserted now q t))
  unfolding create_withdrawal admin_approve_reject_withdrawal
  marked-Change now q t h =
      let a = new_withdrawal now t.withdrawal_seq (row_params q) in
      settle_row (record { tx_id = none; fee = 0; status = failed; id = t.withdrawal_seq }) a
        (find_inserted a t.withdrawals refl h.below) (λ e. cc) refl refl

  unchanged : {t u : Tables} → u ≡ t → Changes sent t u
  unchanged e =
      one (same (ap (λ (t : Tables). t.withdrawals) e) (ap (λ (t : Tables). t.withdrawal_seq) e))

  -- The tables named by an equation.
  moved_to : {t u v : Tables} → u ≡ v → Changes sent t v → Changes sent t u
  moved_to {t} e c = subst (Changes sent t) (sym e) c

In-last : (tx : Sent) (l : List Sent) → In tx (l ++ tx ∷ [])
In-last tx [] = inl refl
In-last tx (x ∷ l) = inr (In-last tx l)

-- Every call makes such changes.
pub apply-Changes :
    (c : Call) (w : World)
    → HasFreshIds w.tables
    → Changes (apply c w).sent w.tables (apply c w).tables
unfolding apply
apply-Changes (Call.withdraw_call env r) w h =
    let s = (withdraw env r w).1.sent in
    elim (Reply-cases (withdraw env r w).0) [
      | inr (c, e) ↦ unchanged s ((withdraw-fail env r w {c = c} e).0)
      | inl (rep, e) ↦
          let (q, _, t) = withdraw-tables env r w {rep = rep} e in
          let v = inserted w.now q w.tables in
          elim t [
            | inl i ↦ moved_to s i (one (inserted-Change s w.now q w.tables))
            | inr i ↦
                moved_to s i
                  (two v (inserted-Change s w.now q w.tables) (marked-Change s w.now q w.tables h))
          ]
    ]
apply-Changes (Call.approve_call env r) w h =
    let s = (approve_withdrawal env r w).1.sent in
    elim (Reply-cases (approve_withdrawal env r w).0) [
      | inr (c, e) ↦ elim (approve-fail env r w {c = c} e) [
        | inl (_, _, i) ↦ unchanged s i
        | inr (x, found, _, _, m) ↦ elim m [
          | inl (_, i) ↦
              moved_to s i (one (settled-Change s _ x.row _ w.tables found.found refl (λ e. cc)))
          | inr (_, i) ↦ unchanged s i
        ]
      ]
      | inl (rep, e) ↦
          let (x, found, tx, _, res, id, _, _, out, t) = approve-ok env r w {rep = rep} e in
          elim t [
            | inl (_, i) ↦ moved_to s i (
                one (
                  settled-Change s _ x.row (completion x.row res) w.tables found.found refl
                    (λ _. (tx, rw out (In-last tx w.sent), ap some id))))
            | inr (_, i) ↦ unchanged s i
          ]
    ]
apply-Changes (Call.reject_call r) w h =
    let s = (reject_withdrawal r w).1.sent in
    let (_, t) = reject_outcome r w in
    elim t [
      | inl (i, _) ↦ unchanged s i
      | inr (x, found, _, j) ↦ elim j [
        | inl (_, i) ↦
            moved_to s i
              (one (settled-Change s _ x.row (rejection x.row) w.tables found.found refl (λ e. cc)))
        | inr (_, i) ↦ unchanged s i
      ]
    ]
apply-Changes (Call.wait n) w h = unchanged w.sent refl
apply-Changes (Call.outage l) w h = unchanged w.sent refl
apply-Changes (Call.leases l) w h = unchanged w.sent refl

-- No call takes a transaction back.
pub apply-Extends : (c : Call) (w : World) → Extends w.sent (apply c w).sent
unfolding apply
apply-Extends (Call.withdraw_call env r) w = elim (Reply-cases (withdraw env r w).0) [
  | inr (c, e) ↦ ([], (withdraw-fail env r w {c = c} e).1 ∙ sym (append-nil w.sent))
  | inl (rep, e) ↦ withdraw-sent env r w {rep = rep} e
]
apply-Extends (Call.approve_call env r) w = elim (Reply-cases (approve_withdrawal env r w).0) [
  | inr (c, e) ↦ elim (approve-fail env r w {c = c} e) [
    | inl (_, k, _) ↦ ([], k ∙ sym (append-nil w.sent))
    | inr (_, _, _, lost, _) ↦ elim lost [
      | inl k ↦ ([], k ∙ sym (append-nil w.sent))
      | inr (tx, _, k) ↦ (tx ∷ [], k)
    ]
  ]
  | inl (rep, e) ↦
      let (_, _, tx, _, _, _, _, _, out, _) = approve-ok env r w {rep = rep} e in (tx ∷ [], out)
]
apply-Extends (Call.reject_call r) w = ([], (reject_outcome r w).0 ∙ sym (append-nil w.sent))
apply-Extends (Call.wait n) w = ([], sym (append-nil w.sent))
apply-Extends (Call.outage l) w = ([], sym (append-nil w.sent))
apply-Extends (Call.leases l) w = ([], sym (append-nil w.sent))
