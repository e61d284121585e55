-- ===== src/Api/Ledger/Paid.antt =====
-- Completed rows are paid: each carries the id of a transaction that a node has taken.
use web3_blitz.Base.{
  ◌≡◌, inl, inr, List, [], ◌∷◌, ◌++◌, ◌==◌, arith, Bool-cases, update_where, All, All-append, subst,
  sym,
}
use web3_blitz.Db.Models.{completed, Withdrawal, Tables}
use web3_blitz.Db.Withdrawals.{AdminApproveRejectWithdrawalParams}
use web3_blitz.Effects.{World, Sent}
use web3_blitz.Api.Ledger.{Call, apply, run}
use web3_blitz.Api.Ledger.Rows.{HasFreshIds, settle}
use web3_blitz.Api.Ledger.Change.{
  In, IsBroadcast, Change, same, insert, settle_row, Changes, one, two, Changes-HasFreshIds,
  apply-Changes, apply-Extends,
}

-- A completed row has the id of a transaction that was sent.
abbrev pub IsPaid : List Sent → Withdrawal → Type 0
IsPaid s x = x.status ≡ completed → IsBroadcast x.tx_id s

In-append : (tx : Sent) (l r : List Sent) → In tx l → In tx (l ++ r)
In-append tx [] r h = elim h [ ]
In-append tx (x ∷ l) r h = elim h [ inl e ↦ inl e | inr m ↦ inr (In-append tx l r m) ]

AllPaid-append :
    (s r : List Sent) (l : List Withdrawal) → All (IsPaid s) l → All (IsPaid (s ++ r)) l
AllPaid-append s r [] h = tt
AllPaid-append s r (x ∷ l) h =
    (λ c. let (tx, m, e) = h.0 c in (tx, In-append tx s r m, e), AllPaid-append s r l h.1)

AllPaid-settle :
    (s : List Sent) (p : AdminApproveRejectWithdrawalParams) (l : List Withdrawal)
    → (p.status ≡ completed → IsBroadcast p.tx_id s)
    → All (IsPaid s) l
    → All (IsPaid s) (settle p.id p l)
unfolding update_where
AllPaid-settle s p [] b h = tt
AllPaid-settle s p (x ∷ l) b h = elim (Bool-cases (x.id == p.id)) [
  | inl e ↦ rw e (b, AllPaid-settle s p l b h.1)
  | inr e ↦ rw e (h.0, AllPaid-settle s p l b h.1)
]

Change-AllPaid :
    {s : List Sent} {t u : Tables}
    → Change s t u
    → All (IsPaid s) t.withdrawals
    → All (IsPaid s) u.withdrawals
Change-AllPaid (same e _) h = rw e h
Change-AllPaid {s} {t} (insert a _ st e _) h =
    rw e (All-append (IsPaid s) t.withdrawals (a ∷ []) h (λ c. ground (arith, st, c), tt))
Change-AllPaid {s} {t} (settle_row p a _ b e _) h = rw e (AllPaid-settle s p t.withdrawals b h)

Changes-AllPaid :
    {s : List Sent} {t u : Tables}
    → Changes s t u
    → All (IsPaid s) t.withdrawals
    → All (IsPaid s) u.withdrawals
Changes-AllPaid (one c) h = Change-AllPaid c h
Changes-AllPaid (two v c d) h = Change-AllPaid d (Change-AllPaid c h)

-- Over any sequence of withdrawals (in both modes), approvals, rejections, waits and outages: if
-- every completed row carries the id of a transaction that was broadcast, and the ids of the rows
-- are increasing and below the sequence's next value, the same holds at the end.
pub run-AllPaid :
    (cs : List Call) (w : World)
    → HasFreshIds w.tables
    → All (IsPaid w.sent) w.tables.withdrawals
    → All (IsPaid (run cs w).sent) (run cs w).tables.withdrawals
unfolding run
run-AllPaid [] w f h = h
run-AllPaid (c ∷ cs) w f h =
    let step = apply-Changes c w f in
    let (r, e) = apply-Extends c w in
    run-AllPaid cs (apply c w) (Changes-HasFreshIds step f) (
      Changes-AllPaid step (
        subst (λ (s : List Sent). All (IsPaid s) w.tables.withdrawals) (sym e)
          (AllPaid-append w.sent r w.tables.withdrawals h)))
