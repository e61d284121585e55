-- ===== src/Base/Lists.antt =====
-- A table as a list of rows in insertion order: `SELECT ... WHERE`, `SUM`, `UPDATE ... WHERE`.
use Prim.Native.Nat.{ℕ, zero, suc, ◌+◌}
use mathlib.Core.Path.{◌≡◌, refl}
use mathlib.Core.Logic.{◌⊎◌, inl, inr}
use mathlib.Core.Bool.{Bool, true, false, ◌||◌, ◌&&◌}
use mathlib.Core.Option.{Option, none, some}
use mathlib.Core.List.{List, [], ◌∷◌, ◌++◌}
use native.Mathlib.Omega.{arith}
use web3_blitz.Base.Tests.{leb, if◌then◌else◌, Bool-cases}

module _ {ℓ} {A : Type ℓ} where
  abbrev pub length : List A → ℕ
  length [] = 0
  length (x ∷ xs) = suc (length xs)

  abbrev pub take : ℕ → List A → List A
  take zero xs = []
  take (suc n) [] = []
  take (suc n) (x ∷ xs) = x ∷ take n xs

  -- The rows that meet the condition, in order.
  unfoldable pub select : (A → Bool) → List A → List A
  select p [] = []
  select p (x ∷ xs) = if p x then x ∷ select p xs else select p xs

  -- `SELECT ... LIMIT 1`: the first row that meets the condition.
  unfoldable pub find_row : (A → Bool) → List A → Option A
  find_row p [] = none
  find_row p (x ∷ xs) = if p x then some x else find_row p xs

  unfoldable pub has_row : (A → Bool) → List A → Bool
  has_row p [] = false
  has_row p (x ∷ xs) = p x || has_row p xs

  -- `UPDATE ... SET f WHERE p`.
  unfoldable pub update_where : (A → Bool) → (A → A) → List A → List A
  update_where p f [] = []
  update_where p f (x ∷ xs) = (if p x then f x else x) ∷ update_where p f xs

  -- `ORDER BY f ASC`, stable.
  unfoldable insert_by : (A → ℕ) → A → List A → List A
  insert_by f a [] = a ∷ []
  insert_by f a (x ∷ xs) = if leb (f a) (f x) then a ∷ x ∷ xs else x ∷ insert_by f a xs

  pub order_by : (A → ℕ) → List A → List A
  unfolding insert_by
  order_by f [] = []
  order_by f (x ∷ xs) = insert_by f x (order_by f xs)

  -- `COALESCE(SUM(f), 0)`.
  unfoldable pub sum_by : (A → ℕ) → List A → ℕ
  sum_by f [] = 0
  sum_by f (x ∷ xs) = f x + sum_by f xs

  -- A predicate on every row.
  abbrev pub All {κ} : (A → Type κ) → List A → Type κ
  All P [] = Unit
  All P (x ∷ xs) = P x × All P xs

  -- A row that does not meet the condition adds nothing to a sum over those that do.
  pub sum_by-select_append :
      (f : A → ℕ) (p : A → Bool) (xs : List A) (a : A)
      → p a ≡ false
      → sum_by f (select p (xs ++ a ∷ [])) ≡ sum_by f (select p xs)
  unfolding sum_by select
  sum_by-select_append f p [] a h = ground arith
  sum_by-select_append f p (x ∷ xs) a h = ground (arith, sum_by-select_append f p xs a h)

  -- What is found meets the condition.
  pub find_row-holds : (p : A → Bool) (a : A) (xs : List A) → find_row p xs ≡ some a → p a ≡ true
  unfolding find_row
  find_row-holds p a [] h = cc
  find_row-holds p a (x ∷ xs) h = ground (arith, find_row-holds p a xs)

  pub All-append {κ} : (P : A → Type κ) (xs ys : List A) → All P xs → All P ys → All P (xs ++ ys)
  All-append P [] ys hx hy = hy
  All-append P (x ∷ xs) ys hx hy = (hx.0, All-append P xs ys hx.1 hy)

  pub All-select {κ} :
      (P : A → Type κ) (p : A → Bool) (xs : List A) → All P xs → All P (select p xs)
  unfolding select
  All-select P p [] h = tt
  All-select P p (x ∷ xs) h = elim (Bool-cases (p x)) [
    | inl e ↦ rw e (h.0, All-select P p xs h.1)
    | inr e ↦ rw e (All-select P p xs h.1)
  ]

  All-insert_by {κ} :
      (P : A → Type κ) (f : A → ℕ) (a : A) (xs : List A) → P a → All P xs → All P (insert_by f a xs)
  unfolding insert_by
  All-insert_by P f a [] h k = (h, tt)
  All-insert_by P f a (x ∷ xs) h k = elim (Bool-cases (leb (f a) (f x))) [
    | inl e ↦ rw e (h, k)
    | inr e ↦ rw e (k.0, All-insert_by P f a xs h k.1)
  ]

  pub All-order_by {κ} :
      (P : A → Type κ) (f : A → ℕ) (xs : List A) → All P xs → All P (order_by f xs)
  unfolding order_by
  All-order_by P f [] h = tt
  All-order_by P f (x ∷ xs) h = All-insert_by P f x (order_by f xs) h.0 (All-order_by P f xs h.1)

  pub All-update_where {κ} :
      (P : A → Type κ) (p : A → Bool) (f : A → A) (xs : List A)
      → ((x : A) → P x → P (f x))
      → All P xs
      → All P (update_where p f xs)
  unfolding update_where
  All-update_where P p f [] k h = tt
  All-update_where P p f (x ∷ xs) k h = elim (Bool-cases (p x)) [
    | inl e ↦ rw e (k x h.0, All-update_where P p f xs k h.1)
    | inr e ↦ rw e (h.0, All-update_where P p f xs k h.1)
  ]

  has_row-insert_by :
      (q : A → Bool) (f : A → ℕ) (a : A) (xs : List A)
      → has_row q (insert_by f a xs) ≡ q a || has_row q xs
  unfolding has_row insert_by
  has_row-insert_by q f a [] = refl
  has_row-insert_by q f a (x ∷ xs) = ground (arith, has_row-insert_by q f a xs)

  pub has_row-order_by :
      (q : A → Bool) (f : A → ℕ) (xs : List A) → has_row q (order_by f xs) ≡ has_row q xs
  unfolding has_row order_by
  has_row-order_by q f [] = refl
  has_row-order_by q f (x ∷ xs) =
      ground (arith, has_row-insert_by q f x (order_by f xs), has_row-order_by q f xs)

  pub has_row-select :
      (q p : A → Bool) (xs : List A) → has_row q (select p xs) ≡ has_row (λ x. p x && q x) xs
  unfolding has_row select
  has_row-select q p [] = refl
  has_row-select q p (x ∷ xs) = ground (arith, has_row-select q p xs)

  pub All-imp {κ μ} :
      (P : A → Type κ) (Q : A → Type μ) (xs : List A) → ((x : A) → P x → Q x) → All P xs → All Q xs
  All-imp P Q [] f h = tt
  All-imp P Q (x ∷ xs) f h = (f x h.0, All-imp P Q xs f h.1)

  -- Each row is found by what it meets itself.
  pub All-has_row :
      (p : A → A → Bool) (xs : List A) → All (λ x. p x x ≡ true → has_row (p x) xs ≡ true) xs
  unfolding has_row
  All-has_row p [] = tt
  All-has_row p (x ∷ xs) =
      (λ e. ground arith, All-imp _ _ xs (λ y f e. ground (arith, f e)) (All-has_row p xs))

-- The list has the element.
abbrev pub Has : {A : Type 0} → A → List A → Type 0
Has a [] = ⊥
Has a (x ∷ xs) = (x ≡ a) ⊎ Has a xs
