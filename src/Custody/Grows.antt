-- ===== src/Custody/Grows.antt =====
-- The loops behind the API leave the withdrawals alone, and confirmed deposits only grow.
use web3_blitz.Base.{
  ℕ, ◌≤◌, ◌≡◌, refl, ◌∙◌, inl, inr, List, [], ◌∷◌, ◌++◌, ◌==◌, String, arith, Bool-cases, select,
  sum_by, update_where,
}
use web3_blitz.Db.Models.{Chain, Deposit, Tables}
use web3_blitz.Db.Deposits.{
  is_confirmed_of, deposited, list_unconfirmed_deposits, update_deposit_confirmed,
  create_deposit_address,
}
use web3_blitz.Effects.{World, try_read, ignore_write, is_down}
use web3_blitz.Wallet.Consume.{DepositRecord, consume}
use web3_blitz.Wallet.Consume.Kept.{consume-Keeps}
use web3_blitz.Wallet.Consume.Outcome.{consume_outcome}
use web3_blitz.Wallet.Confirm.{Heights, is_deep, confirm_row, confirm_rows, confirm_listed, check}
use web3_blitz.Wallet.Registry.{Registry}
use web3_blitz.Wallet.Address.{KeyTree, generate_deposit_address}
use web3_blitz.Wallet.Pipeline.{
  Service, Turn, generate, scan_btc, scan_eth, receive_btc, receive_eth, confirm, received, turn,
}

pub record Grows (t u : Tables) : Type 0 where
  pub withdrawals : u.withdrawals ≡ t.withdrawals
  pub seq : u.withdrawal_seq ≡ t.withdrawal_seq
  pub more : (user : ℕ) (chain : Chain) → deposited user chain t ≤ deposited user chain u

Grows-self : (t : Tables) → Grows t t
Grows-self t = record { withdrawals = refl; seq = refl; more = λ user chain. omega arith }

Grows-trans : {t u v : Tables} → Grows t u → Grows u v → Grows t v
Grows-trans g h = record {
  withdrawals = h.withdrawals ∙ g.withdrawals;
  seq = h.seq ∙ g.seq;
  more = λ user chain. omega (arith, g.more user chain, h.more user chain);
}

module _ (user : ℕ) (chain : Chain) where
  abbrev total : List Deposit → ℕ
  total l = sum_by (λ d. d.amount) (select (is_confirmed_of user chain) l)

  total-append : (l : List Deposit) (a : Deposit) → total l ≤ total (l ++ a ∷ [])
  unfolding sum_by select
  total-append [] a = omega arith
  total-append (x ∷ l) a = ground (arith, total-append l a)

  total-confirmed :
      (k : ℕ) (l : List Deposit)
      → total l ≤ total (update_where (λ d. d.id == k) (λ d. record d { confirmed = 1 }) l)
  unfolding sum_by select update_where
  total-confirmed k [] = omega arith
  total-confirmed k (x ∷ l) = ground (arith, total-confirmed k l)

module _ (h : Heights) where
  row-Grows : (d : Deposit) (w : World) → Grows w.tables (confirm_row h d w).tables
  unfolding confirm_row ignore_write update_deposit_confirmed
  row-Grows d w = elim (Bool-cases (is_deep h d.chain d.height)) [
    | inr e ↦ rw e (Grows-self w.tables)
    | inl e ↦ rw e (elim (Bool-cases (is_down w.outages)) [
      | inl o ↦ rw o (Grows-self w.tables)
      | inr o ↦ rw o (record {
        withdrawals = refl;
        seq = refl;
        more = λ user chain. total-confirmed user chain d.id w.tables.deposits;
      })
    ])
  ]

  rows-Grows : (ds : List Deposit) (w : World) → Grows w.tables (confirm_rows h ds w).tables
  unfolding confirm_rows
  rows-Grows [] w = Grows-self w.tables
  rows-Grows (d ∷ ds) w = Grows-trans (row-Grows d w) (rows-Grows ds (confirm_row h d w))

  check-Grows : (w : World) → Grows w.tables (check h w).tables
  unfolding check confirm_listed try_read list_unconfirmed_deposits
  check-Grows w = elim (Bool-cases (is_down w.outages)) [
    | inl e ↦ rw e (Grows-self w.tables)
    | inr e ↦ rw e (rows-Grows _ _)
  ]

consume-Grows :
    (kind : String) (d : DepositRecord) (w : World) → Grows w.tables (consume kind d w).tables
consume-Grows kind d w =
    let (kept, seq) = consume-Keeps kind d w in
    record {
      withdrawals = kept;
      seq = seq;
      more = λ user chain. elim (consume_outcome kind d w) [
        | inl i ↦ rw i.rows (total-append user chain w.tables.deposits _)
        | inr (_, same, _) ↦ rw same (omega arith)
      ];
    }

received-Grows :
    (kind : String) (ds : List DepositRecord) (w : World)
    → Grows w.tables (received kind ds w).1.tables
received-Grows kind [] w = Grows-self w.tables
received-Grows kind (d ∷ ds) w = consume-Grows kind d w

generate-kept :
    (t : KeyTree) (chain : Chain) (user : ℕ) (r : Registry) (w : World)
    → let u = (generate_deposit_address t chain user r w).1.1.tables in
      (u.withdrawals ≡ w.tables.withdrawals)
      × (u.withdrawal_seq ≡ w.tables.withdrawal_seq)
      × (u.deposits ≡ w.tables.deposits)
unfolding generate_deposit_address ignore_write create_deposit_address
generate-kept t chain user r w = ground arith

generate-Grows :
    (t : KeyTree) (chain : Chain) (user : ℕ) (r : Registry) (w : World)
    → Grows w.tables (generate_deposit_address t chain user r w).1.1.tables
generate-Grows t chain user r w =
    let (kept, seq, deposits) = generate-kept t chain user r w in
    record { withdrawals = kept; seq = seq; more = λ of_user of_chain. rw deposits (omega arith) }

pub turn-Grows : (t : Turn) (s : Service) → Grows s.world.tables (turn t s).world.tables
unfolding turn
turn-Grows (generate t chain user) s = generate-Grows t chain user s.registry s.world
turn-Grows (scan_btc n) s = Grows-self s.world.tables
turn-Grows (scan_eth n) s = Grows-self s.world.tables
turn-Grows receive_btc s = received-Grows "BTC_deposit" s.btc_watcher.deposits s.world
turn-Grows receive_eth s = received-Grows "ETH_deposit" s.eth_watcher.deposits s.world
turn-Grows (confirm h) s = check-Grows h s.world
