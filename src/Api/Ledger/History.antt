-- ===== src/Api/Ledger/History.antt =====
-- How the withdrawals table evolves over any sequence of requests.
use web3_blitz.Base.{
  ℕ, ◌≡◌, ◌⊎◌, inl, inr, refl, List, [], ◌∷◌, ◌++◌, ◌==◌, arith, Bool-cases, update_where, ◌∙◌,
}
use web3_blitz.Db.Models.{pending, Withdrawal, Tables}
use web3_blitz.Db.Withdrawals.{AdminApproveRejectWithdrawalParams}
use web3_blitz.Effects.{World, Sent}
use web3_blitz.Api.Ledger.{Call, apply, run}
use web3_blitz.Api.Ledger.Rows.{HasFreshIds, settle}
use web3_blitz.Api.Ledger.Pending.{IsPendingAt, find_pending-IsPendingAt}
use web3_blitz.Api.Ledger.Change.{
  Change, same, insert, settle_row, Changes, one, two, Changes-HasFreshIds, Change-HasFreshIds,
  apply-Changes,
}

-- What may become of one row: who asked, for how much, where to and when is fixed, and a row that
-- has left the status pending is fixed whole.
pub record Follows (x y : Withdrawal) : Type 0 where
  pub id : y.id ≡ x.id
  pub user : y.user_id ≡ x.user_id
  pub amount : y.amount ≡ x.amount
  pub address : y.address ≡ x.address
  pub chain : y.chain ≡ x.chain
  pub created : y.created_at ≡ x.created_at
  pub final : (x.status ≡ pending) ⊎ (y ≡ x)

-- Every row has a successor at its place; more rows may come at the end.
abbrev pub Evolves : List Withdrawal → List Withdrawal → Type 0
Evolves [] ys = Unit
Evolves (x ∷ xs) [] = ⊥
Evolves (x ∷ xs) (y ∷ ys) = Follows x y × Evolves xs ys

Follows-self : (x : Withdrawal) → Follows x x
Follows-self x = record {
  id = refl;
  user = refl;
  amount = refl;
  address = refl;
  chain = refl;
  created = refl;
  final = inr refl;
}

Follows-trans : {x y z : Withdrawal} → Follows x y → Follows y z → Follows x z
Follows-trans h k = record {
  id = k.id ∙ h.id;
  user = k.user ∙ h.user;
  amount = k.amount ∙ h.amount;
  address = k.address ∙ h.address;
  chain = k.chain ∙ h.chain;
  created = k.created ∙ h.created;
  final = elim h.final [
    | inl p ↦ inl p
    | inr e ↦ elim k.final [ inl p ↦ inl (ground (arith, e, p)) | inr e' ↦ inr (e' ∙ e) ]
  ];
}

Evolves-self : (l : List Withdrawal) → Evolves l l
Evolves-self [] = tt
Evolves-self (x ∷ l) = (Follows-self x, Evolves-self l)

Evolves-append : (l r : List Withdrawal) → Evolves l (l ++ r)
Evolves-append [] r = tt
Evolves-append (x ∷ l) r = (Follows-self x, Evolves-append l r)

Evolves-trans : (a b c : List Withdrawal) → Evolves a b → Evolves b c → Evolves a c
Evolves-trans [] b c h k = tt
Evolves-trans (x ∷ a) [] c h k = elim h [ ]
Evolves-trans (x ∷ a) (y ∷ b) [] h k = elim k [ ]
Evolves-trans (x ∷ a) (y ∷ b) (z ∷ c) h k = (Follows-trans h.0 k.0, Evolves-trans a b c h.1 k.1)

Evolves-settle :
    (k : ℕ) (p : AdminApproveRejectWithdrawalParams) (l : List Withdrawal)
    → IsPendingAt k l
    → Evolves l (settle k p l)
unfolding update_where
Evolves-settle k p [] h = tt
Evolves-settle k p (x ∷ l) h = elim (Bool-cases (x.id == k)) [
  | inr e ↦ rw e (Follows-self x, Evolves-settle k p l h.1)
  | inl e ↦ rw e (
    record {
      id = refl;
      user = refl;
      amount = refl;
      address = refl;
      chain = refl;
      created = refl;
      final = inl (h.0 e);
    },
    Evolves-settle k p l h.1,
  )
]

Change-Evolves :
    {s : List Sent} {t u : Tables}
    → Change s t u
    → HasFreshIds t
    → Evolves t.withdrawals u.withdrawals
Change-Evolves {t} (same e s) h = rw e (Evolves-self t.withdrawals)
Change-Evolves {t} (insert a id st e s) h = rw e (Evolves-append t.withdrawals (a ∷ []))
Change-Evolves {t} (settle_row p a f b e s) h = rw e (
    Evolves-settle p.id p t.withdrawals
      (find_pending-IsPendingAt p.id a t.withdrawals h.increasing f))

Changes-Evolves :
    {s : List Sent} {t u : Tables}
    → Changes s t u
    → HasFreshIds t
    → Evolves t.withdrawals u.withdrawals
Changes-Evolves (one c) h = Change-Evolves c h
Changes-Evolves {t} {u} (two v c d) h =
    Evolves-trans t.withdrawals v.withdrawals u.withdrawals (Change-Evolves c h)
      (Change-Evolves d (Change-HasFreshIds c h))

run-HasFreshIds :
    (cs : List Call) (w : World) → HasFreshIds w.tables → HasFreshIds (run cs w).tables
unfolding run
run-HasFreshIds [] w h = h
run-HasFreshIds (c ∷ cs) w h =
    run-HasFreshIds cs (apply c w) (Changes-HasFreshIds (apply-Changes c w h) h)

-- Over any sequence of withdrawals, approvals, rejections, waits, outages and ends of leases, one
-- after another and each as a whole, from a table whose ids are increasing and below the sequence's
-- next value: no row is lost or moved, a row's user, amount, address, chain and time never change,
-- and a row whose status is not pending never changes at all. Of requests that run at the same time
-- nothing is said: two reviews of one row, which take no lock, can both change it.
pub run-Evolves :
    (cs : List Call) (w : World)
    → HasFreshIds w.tables
    → Evolves w.tables.withdrawals (run cs w).tables.withdrawals
unfolding run
run-Evolves [] w h = Evolves-self w.tables.withdrawals
run-Evolves (c ∷ cs) w h =
    let step = apply-Changes c w h in
    Evolves-trans w.tables.withdrawals (apply c w).tables.withdrawals _ (Changes-Evolves step h)
      (run-Evolves cs (apply c w) (Changes-HasFreshIds step h))
