-- ===== src/Wallet/Reconcile/Quiet.antt =====
-- When the reconciler reports nothing.
use web3_blitz.Base.{
  ℕ, ◌≡◌, ◌↔◌, inl, inr, refl, sym, ◌∙◌, Bool, true, false, ◌||◌, none, some, List, [], ◌∷◌, ◌++◌,
  String, arith, has_row, str_eq, eq_iff, ◌==◌, ==-true, Bool-cases, Option-cases, All,
}
use web3_blitz.Db.Models.{Chain, Deposit, Tables}
use web3_blitz.Db.Deposits.{list_deposits_by_chain_and_height_range}
use web3_blitz.Wallet.Reconcile.{
  Output, Scan, empty_scan, is_seen, by_tx_id, compare_output, phantoms, with_phantoms,
}
use web3_blitz.Wallet.Reconcile.Events.{Event, failure, output, step, run_events}

pub append_nil_inv {ℓ} : {A : Type ℓ} (xs ys : List A) → xs ++ ys ≡ [] → (xs ≡ []) × (ys ≡ [])
append_nil_inv [] ys h = (refl, h)
append_nil_inv (x ∷ xs) ys h = cc

append-ne-nil {ℓ} : {A : Type ℓ} (xs : List A) (y : A) → ¬ (xs ++ y ∷ [] ≡ [])
append-ne-nil [] y h = cc
append-ne-nil (x ∷ xs) y h = cc

-- Two tests that agree hold of the same rows.
All-by :
    (p q : Deposit → Bool) (ds : List Deposit)
    → ((d : Deposit) → p d ≡ q d)
    → All (λ d. p d ≡ true) ds
    → All (λ d. q d ≡ true) ds
All-by p q [] e h = tt
All-by p q (d ∷ ds) e h = (sym (e d) ∙ h.0, All-by p q ds e h.1)

-- The table has a row of the output's transaction, with its amount.
abbrev IsRecorded : List Deposit → Output → Type 0
IsRecorded db o = (d : Deposit) × (by_tx_id o.tx_id db ≡ some d) × (d.amount ≡ o.amount)

abbrev IsFine : List Deposit → Event → Type 0
IsFine db (failure kind) = ⊥
IsFine db (output o) = IsRecorded db o

abbrev pub pays : String → Event → Bool
pays t (failure kind) = false
pays t (output o) = str_eq t o.tx_id

-- The chain and the rows agree: every block was given, every output that pays one of the addresses
-- has its row, and every row its output.
abbrev pub Agrees : List Deposit → List Event → Type 0
Agrees db es = All (IsFine db) es × All (λ d. has_row (pays d.tx_id) es ≡ true) db

module _ (c : Chain) (db : List Deposit) where
  step-quiet :
      (e : Event) (s : Scan) → (step c db e s).reports ≡ [] → (s.reports ≡ []) × IsFine db e
  unfolding compare_output
  step-quiet (failure kind) s h = absurd (append-ne-nil s.reports _ h)
  step-quiet (output o) s h = elim (Option-cases (by_tx_id o.tx_id db)) [
    | inl e ↦ absurd (append-ne-nil s.reports _ (rw (e, compare_output) at h))
    | inr (d, e) ↦ elim (Bool-cases (d.amount == o.amount)) [
      | inl e' ↦ (rw (e, e', compare_output) at h, (d, e, ==-true d.amount o.amount e'))
      | inr e' ↦ absurd (append-ne-nil s.reports _ (rw (e, e', compare_output) at h))
    ]
  ]

  fine-step :
      (e : Event) (s : Scan)
      → IsFine db e
      → ((step c db e s).reports ≡ s.reports)
        × ((t : String) → is_seen t (step c db e s).seen ≡ (pays t e || is_seen t s.seen))
  unfolding compare_output has_row
  fine-step (failure kind) s h = elim h [ ]
  fine-step (output o) s (d, e, a) =
      let e' : (d.amount == o.amount) ≡ true = ground arith in
      rw (e, e', compare_output) (refl, λ t. refl)

  run-quiet :
      (es : List Event) (s : Scan)
      → (run_events c db es s).reports ≡ []
      → (s.reports ≡ []) × All (IsFine db) es
  unfolding run_events
  run-quiet [] s h = (h, tt)
  run-quiet (e ∷ es) s h =
      let (quiet, fine) = run-quiet es (step c db e s) h in
      let (quiet', fine') = step-quiet e s quiet in (quiet', (fine', fine))

  fine-run :
      (es : List Event) (s : Scan)
      → All (IsFine db) es
      → ((run_events c db es s).reports ≡ s.reports)
        × ((t : String)
            → is_seen t (run_events c db es s).seen ≡ (has_row (pays t) es || is_seen t s.seen))
  unfolding run_events has_row
  fine-run [] s h = (refl, λ t. refl)
  fine-run (e ∷ es) s h =
      let (same, seen) = fine-step e s h.0 in
      let (same', seen') = fine-run es (step c db e s) h.1 in
      (same' ∙ same, λ t. ground (arith, seen t, seen' t))

  seen-row :
      (seen : List String) (t : String) (ds : List Deposit)
      → All (λ (d : Deposit). is_seen d.tx_id seen ≡ true) ds
      → has_row (λ (e : Deposit). str_eq e.tx_id t) ds ≡ true
      → is_seen t seen ≡ true
  unfolding has_row
  seen-row seen t [] h k = cc
  seen-row seen t (d ∷ ds) h k = elim (Bool-cases (str_eq d.tx_id t)) [
    | inl e ↦ rw (← ((eq_iff d.tx_id t).0 e)) (h.0)
    | inr e ↦ seen-row seen t ds h.1 (rw e at k)
  ]

  phantoms-nil :
      (seen : List String) (ds : List Deposit)
      → phantoms c seen ds ≡ []
      → All (λ (d : Deposit). is_seen d.tx_id seen ≡ true) ds
  unfolding phantoms
  phantoms-nil seen [] h = tt
  phantoms-nil seen (d ∷ ds) h =
      elim (Bool-cases (has_row (λ (e : Deposit). str_eq e.tx_id d.tx_id) ds)) [
        | inl e ↦
            let rest = phantoms-nil seen ds (rw e at h) in (seen-row seen d.tx_id ds rest e, rest)
        | inr e ↦ elim (Bool-cases (is_seen d.tx_id seen)) [
          | inl e' ↦ (e', phantoms-nil seen ds (rw e' at (rw e at h)))
          | inr e' ↦ absurd (cc (rw e' at (rw e at h)))
        ]
      ]

  nil-phantoms :
      (seen : List String) (ds : List Deposit)
      → All (λ (d : Deposit). is_seen d.tx_id seen ≡ true) ds
      → phantoms c seen ds ≡ []
  unfolding phantoms
  nil-phantoms seen [] h = refl
  nil-phantoms seen (d ∷ ds) h = ground (arith, nil-phantoms seen ds h.1)

  -- The reports of a whole scan are empty exactly when chain and rows agree.
  pub scan-quiet :
      (es : List Event)
      → (with_phantoms c db (true, run_events c db es empty_scan) ≡ []) ↔ Agrees db es
  scan-quiet es = (there, back)
    where
      seen_all :
          All (IsFine db) es
          → (t : String) → is_seen t (run_events c db es empty_scan).seen ≡ has_row (pays t) es
      seen_all fine t = (fine-run es empty_scan fine).1 t ∙ (unfold has_row in ground arith)

      there : with_phantoms c db (true, run_events c db es empty_scan) ≡ [] → Agrees db es
      there h =
          let (quiet, none_left) = append_nil_inv (run_events c db es empty_scan).reports _ h in
          let (_, fine) = run-quiet es empty_scan quiet in
          (
            fine,
            All-by (λ d. is_seen d.tx_id (run_events c db es empty_scan).seen)
                (λ d. has_row (pays d.tx_id) es) db (λ d. seen_all fine d.tx_id)
                (phantoms-nil _ db none_left),
          )

      back : Agrees db es → with_phantoms c db (true, run_events c db es empty_scan) ≡ []
      back (fine, paid) =
          let (quiet, _) = fine-run es empty_scan fine in
          rw quiet (
            nil-phantoms _ db (
              All-by (λ d. has_row (pays d.tx_id) es)
                (λ d. is_seen d.tx_id (run_events c db es empty_scan).seen) db
                (λ d. sym (seen_all fine d.tx_id)) paid))

-- The rows of a chain in a range of heights.
abbrev pub in_range : Chain → ℕ → ℕ → Tables → List Deposit
unfolding list_deposits_by_chain_and_height_range
in_range c lo hi t = elim (list_deposits_by_chain_and_height_range c lo hi t) [
  | none ↦ []
  | some db ↦ db
]
