-- ===== src/Wallet/Watch/Queue.antt =====
-- The channel `deposits` of a watcher, which drops what does not fit.
use mathlib.Core.List.{append-nil}
use web3_blitz.Base.{
  ℕ, zero, suc, ◌≤◌, ◌≡◌, refl, ◌∙◌, ap, sym, List, [], ◌∷◌, ◌++◌, length, ltb, take, arith,
  Bool-cases, All, All-append, inl, inr, if◌then◌else◌,
}
use web3_blitz.Wallet.Consume.{DepositRecord}

-- `make(chan types.DepositRecord, 100)`
abbrev pub queue_size : ℕ
queue_size = 100

-- `select { case w.deposits <- record: default: }`
unfoldable pub offer : DepositRecord → List DepositRecord → List DepositRecord
offer d q = if ltb (length q) queue_size then q ++ d ∷ [] else q

-- One record after the other.
unfoldable pub offer_all : List DepositRecord → List DepositRecord → List DepositRecord
offer_all [] q = q
offer_all (d ∷ ds) q = offer_all ds (offer d q)

module _ {A : Type 0} where
  take-length : (n : ℕ) (xs ys : List A) → length xs ≡ n → take n (xs ++ ys) ≡ xs
  take-length zero [] ys h = refl
  take-length zero (x ∷ xs) ys h = absurd (omega arith)
  take-length (suc n) [] ys h = absurd (omega arith)
  take-length (suc n) (x ∷ xs) ys h = ap (λ (l : List A). x ∷ l) (take-length n xs ys (omega arith))

  pub take_all : (n : ℕ) (xs : List A) → length xs ≤ n → take n xs ≡ xs
  take_all zero [] h = refl
  take_all zero (x ∷ xs) h = absurd (omega arith)
  take_all (suc n) [] h = refl
  take_all (suc n) (x ∷ xs) h = ap (λ (l : List A). x ∷ l) (take_all n xs (omega arith))

  pub length-prefix : (xs ys : List A) → length xs ≤ length (xs ++ ys)
  length-prefix [] ys = omega arith
  length-prefix (x ∷ xs) ys = omega (arith, length-prefix xs ys)

  append_assoc : (xs ys zs : List A) → (xs ++ ys) ++ zs ≡ xs ++ (ys ++ zs)
  append_assoc [] ys zs = refl
  append_assoc (x ∷ xs) ys zs = ap (λ (l : List A). x ∷ l) (append_assoc xs ys zs)

  length-snoc : (xs : List A) (a : A) → length (xs ++ a ∷ []) ≡ suc (length xs)
  length-snoc [] a = refl
  length-snoc (x ∷ xs) a = ap suc (length-snoc xs a)

-- A channel keeps the first hundred records.
pub offer_all_lem :
    (ds q : List DepositRecord) → length q ≤ queue_size → offer_all ds q ≡ take queue_size (q ++ ds)
unfolding offer_all offer
offer_all_lem [] q h = sym (take_all queue_size q h) ∙ ap (take queue_size) (sym (append-nil q))
offer_all_lem (d ∷ ds) q h = elim (Bool-cases (ltb (length q) queue_size)) [
  | inl e ↦ rw e (
      offer_all_lem ds (q ++ d ∷ []) (ground (arith, length-snoc q d))
      ∙ ap (take queue_size) (append_assoc q (d ∷ []) ds))
  | inr e ↦ rw e (
      let full : length q ≡ queue_size = ground arith in
      offer_all_lem ds q h
      ∙ take-length queue_size q ds full
      ∙ sym (take-length queue_size q (d ∷ ds) full))
]

pub offer_all-append :
    (ds es q : List DepositRecord) → offer_all (ds ++ es) q ≡ offer_all es (offer_all ds q)
unfolding offer_all
offer_all-append [] es q = refl
offer_all-append (d ∷ ds) es q = offer_all-append ds es (offer d q)

-- What holds of the records and of the one that is offered holds of the records afterwards.
pub offer-All :
    (P : DepositRecord → Type 0) (d : DepositRecord) (q : List DepositRecord)
    → P d
    → All P q
    → All P (offer d q)
unfolding offer
offer-All P d q p h = elim (Bool-cases (ltb (length q) queue_size)) [
  | inl e ↦ rw e (All-append P q (d ∷ []) h (p, tt))
  | inr e ↦ rw e h
]
