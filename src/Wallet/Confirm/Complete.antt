-- ===== src/Wallet/Confirm/Complete.antt =====
-- A run of `check` with a database that answers confirms every deposit that is deep enough.
use web3_blitz.Base.{
  ◌≡◌, refl, ◌∙◌, Bool, true, ◌&&◌, List, [], ◌∷◌, ◌==◌, arith, Bool-cases, inl, inr, has_row,
  has_row-order_by, has_row-select, select, order_by, All, All-has_row, Each, Each-self, Each-trans,
  Each-All, Each-update_where,
}
use web3_blitz.Db.Models.{Deposit}
use web3_blitz.Db.Deposits.{list_unconfirmed_deposits, update_deposit_confirmed}
use web3_blitz.Effects.{World, try_read, ignore_write}
use web3_blitz.Wallet.Confirm.Outcome.{IsDeep, IsDeep-is_deep}
use web3_blitz.Wallet.Confirm.{Heights, is_deep, confirm_row, confirm_rows, confirm_listed, check}

module _ (h : Heights) where
  -- A row that is to be confirmed: it is listed, and deep enough.
  abbrev is_hit : Deposit → Deposit → Bool
  is_hit x d = x.id == d.id && is_deep h d.chain d.height

  -- The hits among the listed deposits are confirmed, and no confirmation is lost.
  record Reaches (ds : List Deposit) (x y : Deposit) : Type 0 where
    same_id : y.id ≡ x.id
    keeps : x.confirmed ≡ 1 → y.confirmed ≡ 1
    hits : has_row (is_hit x) ds ≡ true → y.confirmed ≡ 1

  Reaches-nothing : (x : Deposit) → Reaches [] x x
  unfolding has_row
  Reaches-nothing x = record { same_id = refl; keeps = λ e. e; hits = λ e. cc }

  Reaches-more :
      (d : Deposit) (ds : List Deposit) (x y z : Deposit)
      → Reaches (d ∷ []) x y
      → Reaches ds y z
      → Reaches (d ∷ ds) x z
  unfolding has_row
  Reaches-more d ds x y z a b = record {
    same_id = b.same_id ∙ a.same_id;
    keeps = λ e. b.keeps (a.keeps e);
    hits = λ e. elim (Bool-cases (is_hit x d)) [
      | inl i ↦ b.keeps (a.hits (rw i refl))
      | inr i ↦ b.hits (rw a.same_id (ground arith))
    ];
  }

  row_reached :
      (d : Deposit) (w : World)
      → w.outages ≡ []
      → Each (Reaches (d ∷ [])) w.tables.deposits (confirm_row h d w).tables.deposits
        × ((confirm_row h d w).outages ≡ [])
  unfolding confirm_row ignore_write update_deposit_confirmed has_row
  row_reached d w o = elim (Bool-cases (is_deep h d.chain d.height)) [
    | inr e ↦ rw e (
      Each-self (Reaches (d ∷ []))
          (λ x. record { same_id = refl; keeps = λ k. k; hits = λ k. ground arith })
          w.tables.deposits,
      o,
    )
    | inl e ↦
        rw (e, o)
          (
            Each-update_where (λ x. Unit {0}) (Reaches (d ∷ [])) (λ x. x.id == d.id)
                (λ x. record x { confirmed = 1 }) w.tables.deposits
                (λ x _ p. record { same_id = refl; keeps = λ k. refl; hits = λ k. refl })
                (λ x _ p. record { same_id = refl; keeps = λ k. k; hits = λ k. ground arith })
                (all w.tables.deposits),
            refl,
          )
  ]
    where
      all : (l : List Deposit) → All (λ x. Unit {0}) l
      all [] = tt
      all (x ∷ l) = (tt, all l)

  rows_reached :
      (ds : List Deposit) (w : World)
      → w.outages ≡ []
      → Each (Reaches ds) w.tables.deposits (confirm_rows h ds w).tables.deposits
  unfolding confirm_rows
  rows_reached [] w o = Each-self (Reaches []) Reaches-nothing w.tables.deposits
  rows_reached (d ∷ ds) w o =
      let (step, up) = row_reached d w o in
      Each-trans (Reaches (d ∷ [])) (Reaches ds) (Reaches (d ∷ ds)) (Reaches-more d ds)
        w.tables.deposits (confirm_row h d w).tables.deposits _ step
        (rows_reached ds (confirm_row h d w) up)

-- With a database that answers, a run of the checker confirms every unconfirmed deposit whose chain
-- has come far enough past it, by the heights that the nodes report.
pub check_complete :
    (h : Heights) (w : World)
    → w.outages ≡ []
    → Each
        (λ x y. x.confirmed ≡ 0 → IsDeep h x.chain x.height → y.confirmed ≡ 1)
        w.tables.deposits
        (check h w).tables.deposits
unfolding check confirm_listed try_read list_unconfirmed_deposits
check_complete h w up =
    let l = w.tables.deposits in
    let ds = order_by (λ (d : Deposit). d.height) (select (λ d. d.confirmed == 0) l) in
    rw up (
      Each-All _ (Reaches h ds) _ l _
        (λ x y found r e d.
          let deep = IsDeep-is_deep h x.chain x.height d in
          r.hits (
            has_row-order_by (is_hit h x) _ _
            ∙ has_row-select (is_hit h x) (λ d. d.confirmed == 0) l
            ∙ found (ground arith)))
        (All-has_row (λ x d. d.confirmed == 0 && is_hit h x d) l) (rows_reached h ds _ refl))
