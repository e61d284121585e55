-- ===== src/Api/Ledger/Rows.antt =====
-- Row ids: increasing, below the sequence's next value, kept by every write.
use web3_blitz.Base.{
  ℕ, ◌≤◌, ◌<◌, inl, inr, List, [], ◌∷◌, ◌++◌, ◌==◌, arith, Bool-cases, update_where, All,
}
use web3_blitz.Db.Models.{Withdrawal, Tables}
use web3_blitz.Db.Withdrawals.{AdminApproveRejectWithdrawalParams, set_outcome}

-- Every later row has a greater id.
abbrev pub IsIncreasing : List Withdrawal → Type 0
IsIncreasing [] = Unit
IsIncreasing (x ∷ xs) = All (λ y. x.id < y.id) xs × IsIncreasing xs

pub record HasFreshIds (t : Tables) : Type 0 where
  pub increasing : IsIncreasing t.withdrawals
  pub below : All (λ x. x.id < t.withdrawal_seq) t.withdrawals

pub All-weaken :
    (m n : ℕ) (l : List Withdrawal) → m ≤ n → All (λ x. x.id < m) l → All (λ x. x.id < n) l
All-weaken m n [] h a = tt
All-weaken m n (x ∷ l) h a = (omega arith, All-weaken m n l h a.1)

pub IsIncreasing-append :
    (l : List Withdrawal) (a : Withdrawal)
    → IsIncreasing l
    → All (λ x. x.id < a.id) l
    → IsIncreasing (l ++ a ∷ [])
IsIncreasing-append [] a h b = (tt, tt)
IsIncreasing-append (x ∷ l) a h b = (All-snoc l h.0, IsIncreasing-append l a h.1 b.1)
  where
    All-snoc :
        (l : List Withdrawal) → All (λ y. x.id < y.id) l → All (λ y. x.id < y.id) (l ++ a ∷ [])
    All-snoc [] h = (b.0, tt)
    All-snoc (y ∷ l) h = (h.0, All-snoc l h.1)

pub All-below_append :
    (n : ℕ) (l : List Withdrawal) (a : Withdrawal)
    → All (λ x. x.id < n) l
    → a.id < n
    → All (λ x. x.id < n) (l ++ a ∷ [])
All-below_append n [] a h b = (b, tt)
All-below_append n (x ∷ l) a h b = (h.0, All-below_append n l a h.1 b)

module _ (k : ℕ) (p : AdminApproveRejectWithdrawalParams) where
  abbrev pub settle : List Withdrawal → List Withdrawal
  settle l = update_where (λ w. w.id == k) (set_outcome p) l

  settle-above :
      (n : ℕ) (l : List Withdrawal) → All (λ y. n < y.id) l → All (λ y. n < y.id) (settle l)
  unfolding update_where
  settle-above n [] h = tt
  settle-above n (x ∷ l) h = (ground arith, settle-above n l h.1)

  pub settle-below :
      (n : ℕ) (l : List Withdrawal) → All (λ y. y.id < n) l → All (λ y. y.id < n) (settle l)
  unfolding update_where
  settle-below n [] h = tt
  settle-below n (x ∷ l) h = (ground arith, settle-below n l h.1)

  pub settle-IsIncreasing : (l : List Withdrawal) → IsIncreasing l → IsIncreasing (settle l)
  unfolding update_where
  settle-IsIncreasing [] h = tt
  settle-IsIncreasing (x ∷ l) h = elim (Bool-cases (x.id == k)) [
    | inl e ↦ rw e (settle-above x.id l h.0, settle-IsIncreasing l h.1)
    | inr e ↦ rw e (settle-above x.id l h.0, settle-IsIncreasing l h.1)
  ]
