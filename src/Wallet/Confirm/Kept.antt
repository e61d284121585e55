-- ===== src/Wallet/Confirm/Kept.antt =====
-- What the confirmation of a deposit leaves alone.
use web3_blitz.Base.{inl, inr, List, [], ◌∷◌, ◌==◌, Bool-cases, All, All-update_where}
use web3_blitz.Db.Models.{Deposit}
use web3_blitz.Db.Deposits.{list_unconfirmed_deposits, update_deposit_confirmed}
use web3_blitz.Effects.{World, try_read, ignore_write, is_down}
use web3_blitz.Wallet.Confirm.{Heights, is_deep, confirm_row, confirm_rows, confirm_listed, check}

module _ (P : Deposit → Type 0) (kept : (d : Deposit) → P d → P (record d { confirmed = 1 }))
    (h : Heights) where
  row-All :
      (d : Deposit) (w : World)
      → All P w.tables.deposits
      → All P (confirm_row h d w).tables.deposits
  unfolding confirm_row ignore_write update_deposit_confirmed
  row-All d w a = elim (Bool-cases (is_deep h d.chain d.height)) [
    | inr e ↦ rw e a
    | inl e ↦ rw e (elim (Bool-cases (is_down w.outages)) [
      | inl o ↦ rw o a
      | inr o ↦ rw o (All-update_where P (λ x. x.id == d.id) _ w.tables.deposits kept a)
    ])
  ]

  rows-All :
      (ds : List Deposit) (w : World)
      → All P w.tables.deposits
      → All P (confirm_rows h ds w).tables.deposits
  unfolding confirm_rows
  rows-All [] w a = a
  rows-All (d ∷ ds) w a = rows-All ds (confirm_row h d w) (row-All d w a)

  -- What does not depend on the confirmation stays with every row.
  pub check-All : (w : World) → All P w.tables.deposits → All P (check h w).tables.deposits
  unfolding check confirm_listed try_read list_unconfirmed_deposits
  check-All w a = elim (Bool-cases (is_down w.outages)) [
    | inl e ↦ rw e a
    | inr e ↦ rw e (rows-All _ _ a)
  ]
