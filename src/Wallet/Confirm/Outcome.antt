-- ===== src/Wallet/Confirm/Outcome.antt =====
-- What a run of `check` does to each deposit.
use web3_blitz.Base.{
  ℕ, ◌+◌, ◌≤◌, some, Option-cases, subst, ◌≡◌, ◌⊎◌, inl, inr, refl, ◌∙◌, true, List, [], ◌∷◌, ◌==◌,
  ==-true, ap, arith, Bool-cases, update_where, All, All-select, All-order_by, All-update_where,
  Each, Each-self, Each-trans, Each-update_where,
}
use web3_blitz.Db.Models.{Chain, btc, eth, other, Deposit}
use web3_blitz.Db.Deposits.{list_unconfirmed_deposits, update_deposit_confirmed}
use web3_blitz.Effects.{World, try_read, ignore_write, is_down}
use web3_blitz.Wallet.Confirm.{Heights, is_deep, confirm_row, confirm_rows, confirm_listed, check}

-- Rows with one id are one row, as the primary key says.
abbrev pub HasKeys : List Deposit → Type 0
HasKeys l = All (λ d. All (λ y. y.id ≡ d.id → y ≡ d) l) l

-- The height that the chain's node reports is 6 (BTC) or 12 (ETH) blocks past the deposit.
abbrev pub IsDeep : Heights → Chain → ℕ → Type 0
IsDeep h btc height = (n : ℕ) × (h.btc_height ≡ some n) × (height + 6 ≤ n)
IsDeep h eth height = (n : ℕ) × (h.eth_height ≡ some n) × (height + 12 ≤ n)
IsDeep h (other c) height = ⊥

is_deep-IsDeep :
    (h : Heights) (c : Chain) (height : ℕ) → is_deep h c height ≡ true → IsDeep h c height
is_deep-IsDeep h btc height e = elim (Option-cases h.btc_height) [
  | inl f ↦ absurd (ground arith)
  | inr (n, f) ↦ (n, f, ground arith)
]
is_deep-IsDeep h eth height e = elim (Option-cases h.eth_height) [
  | inl f ↦ absurd (ground arith)
  | inr (n, f) ↦ (n, f, ground arith)
]
is_deep-IsDeep h (other c) height e = cc

pub IsDeep-is_deep :
    (h : Heights) (c : Chain) (height : ℕ) → IsDeep h c height → is_deep h c height ≡ true
IsDeep-is_deep h btc height (n, f, l) = ground arith
IsDeep-is_deep h eth height (n, f, l) = ground arith
IsDeep-is_deep h (other c) height d = elim d [ ]

module _ (h : Heights) where
  -- A deposit is as it was, or is confirmed now and the chain has come far enough past it.
  pub record Confirms (x y : Deposit) : Type 0 where
    pub kept : y ≡ record x { confirmed = y.confirmed }
    pub deep : (y.confirmed ≡ x.confirmed) ⊎ ((y.confirmed ≡ 1) × IsDeep h x.chain x.height)

  Confirms-self : (x : Deposit) → Confirms x x
  Confirms-self x = record { kept = refl; deep = inl refl }

  Confirms-trans : (x y z : Deposit) → Confirms x y → Confirms y z → Confirms x z
  Confirms-trans x y z a b = record {
    kept = ground (arith, a.kept, b.kept);
    deep = elim b.deep [
      | inl e ↦ elim a.deep [ inl e' ↦ inl (e ∙ e') | inr k ↦ inr (e ∙ k.0, k.1) ]
      | inr k ↦ inr (k.0, subst (λ (d : Deposit). IsDeep h d.chain d.height) a.kept k.1)
    ];
  }

  -- Every row with the id of `d` is as deep as `d`.
  abbrev IsTarget : List Deposit → Deposit → Type 0
  IsTarget l d = All (λ y. y.id ≡ d.id → is_deep h y.chain y.height ≡ is_deep h d.chain d.height) l

  abbrev confirm : ℕ → List Deposit → List Deposit
  confirm id l = update_where (λ d. d.id == id) (λ d. record d { confirmed = 1 }) l

  IsTarget-confirm :
      (l : List Deposit) (id : ℕ) (d : Deposit) → IsTarget l d → IsTarget (confirm id l) d
  IsTarget-confirm l id d t = All-update_where _ _ _ l (λ x k. k) t

  All-confirm :
      (l : List Deposit) (id : ℕ) (ds : List Deposit)
      → All (IsTarget l) ds
      → All (IsTarget (confirm id l)) ds
  All-confirm l id [] t = tt
  All-confirm l id (d ∷ ds) t = (IsTarget-confirm l id d t.0, All-confirm l id ds t.1)

  row_confirmed :
      (d : Deposit) (l : List Deposit)
      → IsTarget l d
      → is_deep h d.chain d.height ≡ true
      → Each Confirms l (confirm d.id l)
  row_confirmed d l t e =
      Each-update_where (λ y. y.id ≡ d.id → is_deep h y.chain y.height ≡ is_deep h d.chain d.height)
        Confirms (λ x. x.id == d.id) (λ x. record x { confirmed = 1 }) l
        (λ x k p. record {
          kept = refl;
          deep = inr (refl, is_deep-IsDeep h x.chain x.height (k (==-true x.id d.id p) ∙ e));
        })
        (λ x k p. Confirms-self x) t

  confirm_row_lem :
      (d : Deposit) (w : World)
      → IsTarget w.tables.deposits d
      → Each Confirms w.tables.deposits (confirm_row h d w).tables.deposits
        × (((confirm_row h d w).tables.deposits ≡ w.tables.deposits)
            ⊎ ((confirm_row h d w).tables.deposits ≡ confirm d.id w.tables.deposits))
  unfolding confirm_row ignore_write update_deposit_confirmed
  confirm_row_lem d w t = elim (Bool-cases (is_deep h d.chain d.height)) [
    | inr e ↦ rw e (Each-self Confirms Confirms-self w.tables.deposits, inl refl)
    | inl e ↦ rw e (elim (Bool-cases (is_down w.outages)) [
      | inl o ↦ rw o (Each-self Confirms Confirms-self w.tables.deposits, inl refl)
      | inr o ↦ rw o (row_confirmed d w.tables.deposits t e, inr refl)
    ])
  ]

  confirm_rows-Confirms :
      (ds : List Deposit) (w : World)
      → All (IsTarget w.tables.deposits) ds
      → Each Confirms w.tables.deposits (confirm_rows h ds w).tables.deposits
  unfolding confirm_rows
  confirm_rows-Confirms [] w t = Each-self Confirms Confirms-self w.tables.deposits
  confirm_rows-Confirms (d ∷ ds) w t =
      let v = confirm_row h d w in
      let (step, moved) = confirm_row_lem d w t.0 in
      let t' : All (IsTarget v.tables.deposits) ds = elim moved [
        | inl e ↦ rw e (t.1)
        | inr e ↦ rw e (All-confirm w.tables.deposits d.id ds t.1)
      ] in
      Each-trans Confirms Confirms Confirms Confirms-trans w.tables.deposits v.tables.deposits _
        step (confirm_rows-Confirms ds v t')

  targets :
      (l ds : List Deposit) → All (λ d. All (λ y. y.id ≡ d.id → y ≡ d) l) ds → All (IsTarget l) ds
  targets l [] k = tt
  targets l (d ∷ ds) k = (target l k.0, targets l ds k.1)
    where
      target : (l : List Deposit) → All (λ y. y.id ≡ d.id → y ≡ d) l → IsTarget l d
      target [] k = tt
      target (y ∷ l) k =
          (λ e. ap (λ (x : Deposit). is_deep h x.chain x.height) (k.0 e), target l k.1)

-- A run of the checker leaves every deposit as it was, but for the confirmation of deposits whose
-- chain has come at least 6 (BTC) or 12 (ETH) blocks past their height, by what the nodes report in
-- this run; a node that does not answer confirms nothing. No deposit becomes unconfirmed, is lost
-- or added. Rows with the same id are taken to be the same row.
pub check-Confirms :
    (h : Heights) (w : World)
    → HasKeys w.tables.deposits
    → Each (Confirms h) w.tables.deposits (check h w).tables.deposits
unfolding check confirm_listed try_read list_unconfirmed_deposits
check-Confirms h w k = elim (Bool-cases (is_down w.outages)) [
  | inl e ↦ rw e (Each-self (Confirms h) (Confirms-self h) w.tables.deposits)
  | inr e ↦ rw e (
      confirm_rows-Confirms h _ _ (
        All-order_by _ (λ d. d.height) _
          (All-select _ (λ d. d.confirmed == 0) _ (targets h w.tables.deposits _ k))))
]
