-- ===== src/Api/Ledger/Charged.antt =====
-- What a user's withdrawals on a chain take from the deposits, those that are still pending included.
use web3_blitz.Base.{
  ℕ, ◌+◌, ◌≤◌, ◌≡◌, refl, Bool, true, false, ◌&&◌, ◌||◌, List, [], ◌∷◌, ◌++◌, ◌==◌, eq_iff, arith,
  Bool-cases, inl, inr, select, has_row, sum_by, update_where, ap, if◌then◌else◌,
}
use web3_blitz.Db.Models.{Chain, btc, eth, other, chain_eq, pending, status_eq, Withdrawal}
use web3_blitz.Db.Withdrawals.{AdminApproveRejectWithdrawalParams, is_completed_of}
use web3_blitz.Money.{scan, sprintf8}
use web3_blitz.Api.Ledger.Rows.{settle}
use web3_blitz.Api.Ledger.Pending.{IsPendingAt}

abbrev pub is_pending_of : ℕ → Chain → Withdrawal → Bool
is_pending_of user chain w =
    w.user_id == user && chain_eq w.chain chain && status_eq w.status pending

pub chain_eq-true : (c d : Chain) → chain_eq c d ≡ true → c ≡ d
chain_eq-true btc btc h = refl
chain_eq-true eth eth h = refl
chain_eq-true (other s) (other t) h = ap other ((eq_iff s t).0 h)
chain_eq-true btc eth h = cc
chain_eq-true btc (other t) h = cc
chain_eq-true eth btc h = cc
chain_eq-true eth (other t) h = cc
chain_eq-true (other s) btc h = cc
chain_eq-true (other s) eth h = cc

-- What fits in coins fits when it is rounded to eight decimals.
pub sprintf8-fits : (s a d : ℕ) → scan s + a ≤ scan d → s + sprintf8 a ≤ d
unfolding sprintf8
sprintf8-fits s a d h = omega arith

module _ (user : ℕ) (chain : Chain) where
  -- The amount of a row that is completed or pending.
  abbrev pub charge : Withdrawal → ℕ
  charge x = if is_completed_of user chain x || is_pending_of user chain x then x.amount else 0

  unfoldable pub charged : List Withdrawal → ℕ
  charged [] = 0
  charged (x ∷ l) = charge x + charged l

  pub charged-append :
      (l : List Withdrawal) (a : Withdrawal) → charged (l ++ a ∷ []) ≡ charged l + charge a
  unfolding charged
  charged-append [] a = omega arith
  charged-append (x ∷ l) a = omega (arith, charged-append l a)

  -- An outcome for pending rows charges no more than they did.
  pub charged-settle :
      (k : ℕ) (p : AdminApproveRejectWithdrawalParams) (l : List Withdrawal)
      → IsPendingAt k l
      → charged (settle k p l) ≤ charged l
  unfolding charged update_where
  charged-settle k p [] h = omega arith
  charged-settle k p (x ∷ l) h =
      let rest = charged-settle k p l h.1 in
      elim (Bool-cases (x.id == k)) [
        | inr e ↦ rw e (omega (arith, rest))
        | inl e ↦ let was = h.0 e in rw e (ground (arith, rest, was))
      ]

  -- Without pending rows only the completed ones charge.
  pub charged_completed :
      (l : List Withdrawal)
      → has_row (is_pending_of user chain) l ≡ false
      → charged l ≡ sum_by (λ w. w.amount) (select (is_completed_of user chain) l)
  unfolding charged has_row sum_by select
  charged_completed [] h = refl
  charged_completed (x ∷ l) h = ground (arith, charged_completed l)
