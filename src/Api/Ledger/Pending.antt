-- ===== src/Api/Ledger/Pending.antt =====
-- A row found among the pending ones: every row with its id is pending.
use web3_blitz.Base.{
  ℕ, ◌<◌, ◌≡◌, inl, inr, true, false, Option, some, List, [], ◌∷◌, ◌==◌, arith, Bool-cases, select,
  find_row, All, ==-true, subst,
}
use web3_blitz.Db.Models.{pending, status_eq, Withdrawal}
use web3_blitz.Api.Ledger.Rows.{IsIncreasing}

abbrev pub find_pending : ℕ → List Withdrawal → Option Withdrawal
find_pending k l = find_row (λ p. p.id == k) (select (λ w. status_eq w.status pending) l)

-- What holds of every row holds of the one found.
find_pending-above :
    (n k : ℕ) (a : Withdrawal) (l : List Withdrawal)
    → All (λ y. n < y.id) l
    → find_pending k l ≡ some a
    → n < k
unfolding find_row select
find_pending-above n k a [] h f = cc
find_pending-above n k a (x ∷ l) h f = ground (arith, find_pending-above n k a l h.1)

-- No row of the list has the id.
abbrev IsAbsent : ℕ → List Withdrawal → Type 0
IsAbsent k l = All (λ x. (x.id == k) ≡ false) l

IsAbsent-above : (n : ℕ) (l : List Withdrawal) → All (λ y. n < y.id) l → IsAbsent n l
IsAbsent-above n [] h = tt
IsAbsent-above n (x ∷ l) h = (ground arith, IsAbsent-above n l h.1)

abbrev pub IsPendingAt : ℕ → List Withdrawal → Type 0
IsPendingAt k l = All (λ x. (x.id == k) ≡ true → x.status ≡ pending) l

pending_of_absent : (k : ℕ) (l : List Withdrawal) → IsAbsent k l → IsPendingAt k l
pending_of_absent k [] h = tt
pending_of_absent k (x ∷ l) h = (λ e. ground arith, pending_of_absent k l h.1)

pub find_pending-IsPendingAt :
    (k : ℕ) (a : Withdrawal) (l : List Withdrawal)
    → IsIncreasing l
    → find_pending k l ≡ some a
    → IsPendingAt k l
unfolding find_row select
find_pending-IsPendingAt k a [] h f = tt
find_pending-IsPendingAt k a (x ∷ l) h f = elim (Bool-cases (x.id == k)) [
  | inl e ↦ (
    λ _. ground (arith, find_pending-above x.id k a l h.0),
    pending_of_absent k l
        (subst (λ (n : ℕ). IsAbsent n l) (==-true x.id k e) (IsAbsent-above x.id l h.0)),
  )
  | inr e ↦ (λ t. ground arith, find_pending-IsPendingAt k a l h.1 (ground arith))
]
