-- ===== src/Base/Places.antt =====
-- Two lists whose rows are related place by place: a table before and after an UPDATE.
use mathlib.Core.Path.{◌≡◌}
use mathlib.Core.Logic.{inl, inr}
use mathlib.Core.Bool.{Bool, true, false}
use mathlib.Core.List.{List, [], ◌∷◌}
use web3_blitz.Base.Tests.{Bool-cases}
use web3_blitz.Base.Lists.{All, update_where}

module _ {ℓ} {A : Type ℓ} where
  -- The lists have the same length, and what stands at the same place is related.
  abbrev pub Each : (A → A → Type 0) → List A → List A → Type 0
  Each R [] [] = Unit
  Each R (x ∷ xs) (y ∷ ys) = R x y × Each R xs ys
  Each R _ _ = ⊥

  pub Each-self : (R : A → A → Type 0) → ((x : A) → R x x) → (xs : List A) → Each R xs xs
  Each-self R r [] = tt
  Each-self R r (x ∷ xs) = (r x, Each-self R r xs)

  pub Each-trans :
      (R S T : A → A → Type 0)
      → ((x y z : A) → R x y → S y z → T x z)
      → (xs ys zs : List A) → Each R xs ys
      → Each S ys zs
      → Each T xs zs
  Each-trans R S T t [] [] [] h k = tt
  Each-trans R S T t [] [] (z ∷ zs) h k = elim k [ ]
  Each-trans R S T t [] (y ∷ ys) zs h k = elim h [ ]
  Each-trans R S T t (x ∷ xs) [] zs h k = elim h [ ]
  Each-trans R S T t (x ∷ xs) (y ∷ ys) [] h k = elim k [ ]
  Each-trans R S T t (x ∷ xs) (y ∷ ys) (z ∷ zs) h k =
      (t x y z h.0 k.0, Each-trans R S T t xs ys zs h.1 k.1)

  pub Each-update_where :
      (P : A → Type 0) (R : A → A → Type 0) (p : A → Bool) (f : A → A) (xs : List A)
      → ((x : A) → P x → p x ≡ true → R x (f x))
      → ((x : A) → P x → p x ≡ false → R x x)
      → All P xs
      → Each R xs (update_where p f xs)
  unfolding update_where
  Each-update_where P R p f [] k j h = tt
  Each-update_where P R p f (x ∷ xs) k j h = elim (Bool-cases (p x)) [
    | inl e ↦ rw e (k x h.0 e, Each-update_where P R p f xs k j h.1)
    | inr e ↦ rw e (j x h.0 e, Each-update_where P R p f xs k j h.1)
  ]

  -- What holds of every row on the left may be used at each place.
  pub Each-All :
      (P : A → Type 0) (R S : A → A → Type 0) (xs ys : List A)
      → ((x y : A) → P x → R x y → S x y)
      → All P xs
      → Each R xs ys
      → Each S xs ys
  Each-All P R S [] [] f h k = tt
  Each-All P R S [] (y ∷ ys) f h k = elim k [ ]
  Each-All P R S (x ∷ xs) [] f h k = elim k [ ]
  Each-All P R S (x ∷ xs) (y ∷ ys) f h k = (f x y h.0 k.0, Each-All P R S xs ys f h.1 k.1)
