-- ===== src/Wallet/Consume/Outcome.antt =====
-- What becomes of one deposit record, and of the table under any number of them.
use web3_blitz.Base.{
  ℕ, zero, suc, ◌≡◌, ◌⊎◌, inl, inr, refl, ap, ◌∙◌, subst, Bool, true, false, ◌&&◌, List, [], ◌∷◌,
  ◌++◌, String, arith, Bool-cases, has_row, str_eq, eq_iff, sum_by-select_append,
}
use web3_blitz.Code.{ErrorCode, internal}
use web3_blitz.Db.Models.{Chain, Deposit, DeadLetter, Tables}
use web3_blitz.Db.Deposits.{
  create_deposit, create_dead_letter, new_deposit, chain_allowed, deposited, is_confirmed_of,
}
use web3_blitz.Effects.{World, ok, fail, try_write, ignore_write, is_down, after_query}
use web3_blitz.Effects.Laws.{Reply-cases}
use web3_blitz.Wallet.Consume.{
  DepositRecord, deposit_params, max_retries, insert_retry, bury, consume, consume_all,
}

-- No row has the id of this transaction.
abbrev pub IsNew : String → List Deposit → Type 0
IsNew tx l = has_row (λ d. str_eq d.tx_id tx) l ≡ false

-- The record is a new row at the end of the table.
pub record IsInserted (d : DepositRecord) (t u : Tables) : Type 0 where
  pub id : ℕ
  pub fresh : IsNew d.tx_id t.deposits
  pub allowed : chain_allowed d.chain ≡ true
  pub rows : u.deposits ≡ t.deposits ++ new_deposit id (deposit_params d) ∷ []
  pub letters : u.dead_letters ≡ t.dead_letters

-- The table refuses the row: it has the transaction already, or the chain is not allowed.
abbrev pub IsRefused : DepositRecord → Tables → Type 0
IsRefused d t =
    (has_row (λ e. str_eq e.tx_id d.tx_id) t.deposits ≡ true) ⊎ (chain_allowed d.chain ≡ false)

-- The database answers none of the next queries, this many.
abbrev pub AreDown : ℕ → List Bool → Type 0
AreDown zero l = Unit
AreDown (suc n) l = (is_down l ≡ true) × AreDown n (after_query l)

-- The answers of the database that are left after this many queries.
abbrev pub after_queries : ℕ → List Bool → List Bool
after_queries zero l = l
after_queries (suc n) l = after_queries n (after_query l)

-- After `n` attempts at the insert none was made: the rows are those from before.
record IsMissed (n : ℕ) (d : DepositRecord) (w v : World) : Type 0 where
  pub rows : v.tables.deposits ≡ w.tables.deposits
  pub letters : v.tables.dead_letters ≡ w.tables.dead_letters
  pub outages : v.outages ≡ after_queries n w.outages
  pub why : IsRefused d w.tables ⊎ AreDown n w.outages

attempt_ok :
    (d : DepositRecord) (w : World) {u : Unit {0}}
    → (try_write internal (create_deposit (deposit_params d)) w).0 ≡ ok u
    → IsInserted d w.tables (try_write internal (create_deposit (deposit_params d)) w).1.tables
unfolding try_write create_deposit
attempt_ok d w h = record {
  id = w.tables.deposit_seq;
  fresh = ground arith;
  allowed = ground arith;
  rows = ground arith;
  letters = ground arith;
}

attempt_fail :
    (d : DepositRecord) (w : World) {c : ErrorCode}
    → (try_write internal (create_deposit (deposit_params d)) w).0 ≡ fail c
    → IsMissed 1 d w (try_write internal (create_deposit (deposit_params d)) w).1
unfolding try_write create_deposit
attempt_fail d w h = record {
  rows = ground arith;
  letters = ground arith;
  outages = ground arith;
  why = elim (Bool-cases (is_down w.outages)) [
    | inl e ↦ inr (e, tt)
    | inr e ↦ elim (Bool-cases (chain_allowed d.chain)) [
      | inr f ↦ inl (inr f)
      | inl f ↦ inl (inl (ground arith))
    ]
  ];
}

-- A later insert counts from the rows that a missed one has left.
IsInserted-IsMissed :
    {n : ℕ} {d : DepositRecord} {w v : World} {u : Tables}
    → IsMissed n d w v
    → IsInserted d v.tables u
    → IsInserted d w.tables u
IsInserted-IsMissed m i = record {
  id = i.id;
  fresh = rw (← m.rows) i.fresh;
  allowed = i.allowed;
  rows = rw (← m.rows) i.rows;
  letters = i.letters ∙ m.letters;
}

-- One attempt, and those after it.
IsMissed-suc :
    {n : ℕ} {d : DepositRecord} {w v u : World}
    → IsMissed 1 d w v
    → IsMissed n d v u
    → IsMissed (suc n) d w u
IsMissed-suc {n} {d} {w} {v} m k = record {
  rows = k.rows ∙ m.rows;
  letters = k.letters ∙ m.letters;
  outages = k.outages ∙ ap (after_queries n) m.outages;
  why = elim m.why [
    | inl r ↦ inl r
    | inr down ↦ elim k.why [
      | inl r ↦ inl (rw m.rows at r)
      | inr more ↦ inr (down.0, subst (AreDown n) m.outages more)
    ]
  ];
}

insert_retry_lem :
    (n : ℕ) (d : DepositRecord) (w : World)
    → (((insert_retry n d w).0 ≡ true) × IsInserted d w.tables (insert_retry n d w).1.tables)
      ⊎ (((insert_retry n d w).0 ≡ false) × IsMissed n d w (insert_retry n d w).1)
unfolding insert_retry
insert_retry_lem zero d w =
    inr (refl, record { rows = refl; letters = refl; outages = refl; why = inr tt })
insert_retry_lem (suc n) d w =
    let x = try_write internal (create_deposit (deposit_params d)) w in
    elim (Reply-cases x.0) [
      | inl (u, e) ↦ rw (e, insert_retry) (inl (refl, attempt_ok d w {u = u} e))
      | inr (c, e) ↦
          rw (e, insert_retry)
            (let m = attempt_fail d w {c = c} e in
              elim (insert_retry_lem n d x.1) [
                | inl (t, i) ↦ inl (t, IsInserted-IsMissed m i)
                | inr (f, k) ↦ inr (f, IsMissed-suc m k)
              ])
    ]

-- A record that is not inserted: the table refuses it, or the database answers none of the
-- attempts. The rows are left alone, and the record is one more dead letter when the database
-- answers the query after the attempts; only when it does not are the dead letters those from
-- before.
abbrev pub IsBuried : String → DepositRecord → World → Tables → Type 0
IsBuried kind d w u =
    (IsRefused d w.tables ⊎ AreDown max_retries w.outages)
    × (u.deposits ≡ w.tables.deposits)
    × (((is_down (after_queries max_retries w.outages) ≡ true)
          × (u.dead_letters ≡ w.tables.dead_letters))
        ⊎ ((is_down (after_queries max_retries w.outages) ≡ false)
            × (l : DeadLetter) × (u.dead_letters ≡ w.tables.dead_letters ++ l ∷ [])
            × (l.kind ≡ kind)
            × (l.payload ≡ deposit_params d)
            × (l.retries ≡ max_retries)
            × (l.resolved ≡ false)))

bury_lem :
    (kind : String) (d : DepositRecord) (w v : World)
    → IsMissed max_retries d w v
    → IsBuried kind d w (bury kind d v).tables
unfolding bury ignore_write create_dead_letter
bury_lem kind d w v m = elim (Bool-cases (is_down v.outages)) [
  | inl e ↦
      let down : is_down (after_queries max_retries w.outages) ≡ true = rw m.outages at e in
      rw e (m.why, m.rows, inl (down, m.letters))
  | inr e ↦
      let up : is_down (after_queries max_retries w.outages) ≡ false = rw m.outages at e in
      rw e (
        m.why,
        m.rows,
        inr (
          up,
          record {
            id = v.tables.dead_letter_seq;
            kind = kind;
            payload = deposit_params d;
            retries = max_retries;
            resolved = false;
          },
          rw m.letters refl,
          refl,
          refl,
          refl,
          refl,
        ),
      )
]

-- A record from a watcher either becomes one new row, whose transaction was not in the table and
-- whose chain is allowed, or leaves the rows alone. It leaves them alone only when the table has
-- its transaction, its chain is not allowed, or the database answers none of the three attempts;
-- then it is one more dead letter that holds it when the database answers the fourth query, and
-- only when it does not is there no dead letter.
pub consume_outcome :
    (kind : String) (d : DepositRecord) (w : World)
    → IsInserted d w.tables (consume kind d w).tables ⊎ IsBuried kind d w (consume kind d w).tables
unfolding consume
consume_outcome kind d w = elim (insert_retry_lem max_retries d w) [
  | inl (t, i) ↦ rw t (inl i)
  | inr (f, m) ↦ rw f (inr (bury_lem kind d w (insert_retry max_retries d w).1 m))
]

-- No two rows have the same transaction.
abbrev pub IsUnique : List Deposit → Type 0
IsUnique [] = Unit
IsUnique (x ∷ xs) = IsNew x.tx_id xs × IsUnique xs

IsNew-append :
    (tx : String) (a : Deposit) (l : List Deposit)
    → IsNew tx l
    → str_eq tx a.tx_id ≡ false
    → IsNew tx (l ++ a ∷ [])
unfolding has_row
IsNew-append tx a [] h e = ground (arith, eq_iff tx a.tx_id, eq_iff a.tx_id tx)
IsNew-append tx a (x ∷ l) h e = ground (arith, IsNew-append tx a l)

IsUnique-append :
    (a : Deposit) (l : List Deposit) → IsUnique l → IsNew a.tx_id l → IsUnique (l ++ a ∷ [])
unfolding has_row
IsUnique-append a [] u n = (refl, tt)
IsUnique-append a (x ∷ l) u n =
    (IsNew-append x.tx_id a l u.0 (ground arith), IsUnique-append a l u.1 (ground arith))

-- Over any records, in whatever order and however often each comes, a transaction has at most one
-- row, if that held before; so a payment that is seen again is not counted again.
pub consume_all-IsUnique :
    (kind : String) (ds : List DepositRecord) (w : World)
    → IsUnique w.tables.deposits
    → IsUnique (consume_all kind ds w).tables.deposits
unfolding consume_all
consume_all-IsUnique kind [] w u = u
consume_all-IsUnique kind (d ∷ ds) w u =
    consume_all-IsUnique kind ds (consume kind d w) (elim (consume_outcome kind d w) [
      | inl i ↦
          rw i.rows
            (IsUnique-append (new_deposit i.id (deposit_params d)) w.tables.deposits u i.fresh)
      | inr (_, same, _) ↦ rw same u
    ])

-- A payment that a watcher has seen gives no balance yet: the confirmed deposits of every user on
-- every chain are those from before.
consume-deposited :
    (kind : String) (d : DepositRecord) (w : World) (user : ℕ) (chain : Chain)
    → d.confirmed ≡ false
    → deposited user chain (consume kind d w).tables ≡ deposited user chain w.tables
consume-deposited kind d w user chain h = elim (consume_outcome kind d w) [
  | inl i ↦ rw i.rows (
      sum_by-select_append (λ x. x.amount) (is_confirmed_of user chain) w.tables.deposits
        (new_deposit i.id (deposit_params d)) (ground arith))
  | inr (_, same, _) ↦ rw same refl
]

-- A payment on a supported chain whose transaction has no row yet becomes a row, with the amount to
-- eight decimals, whenever the database answers one of the first three attempts.
consume_complete :
    (kind : String) (d : DepositRecord) (w : World) (a b c : Bool) (l : List Bool)
    → w.outages ≡ a ∷ b ∷ c ∷ l
    → (a && b && c) ≡ false
    → IsNew d.tx_id w.tables.deposits
    → chain_allowed d.chain ≡ true
    → IsInserted d w.tables (consume kind d w).tables
unfolding consume insert_retry try_write create_deposit
consume_complete kind d w a b c l o up n s = record {
  id = w.tables.deposit_seq;
  fresh = n;
  allowed = s;
  rows = ground arith;
  letters = ground arith;
}
