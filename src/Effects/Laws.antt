-- ===== src/Effects/Laws.antt =====
-- Rules for calls in sequence.
use web3_blitz.Base.{◌≡◌, refl, ◌∙◌, ◌⊎◌, inl, inr, Option, [], arith}
use web3_blitz.Code.{ErrorCode}
use web3_blitz.Db.Models.{Tables}
use web3_blitz.Effects.{World, Reply, ok, fail, Action, continue, ◌>>=◌, try_read, or_fail}

-- What an action leaves alone whether it fails or not.
abbrev pub Keeps : {A B : Type 0} → (World → B) → Action A → Type 0
Keeps f m = (w : World) → f (m w).1 ≡ f w

module _ {A B C : Type 0} (f : World → C) where
  continue-Keeps :
      (x : Reply A × World) (k : A → Action B)
      → ((a : A) → Keeps f (k a))
      → f (continue x k).1 ≡ f x.1
  continue-Keeps (ok a, w) k h = h a w
  continue-Keeps (fail c, w) k h = refl

  pub >>=-Keeps :
      (m : Action A) (k : A → Action B) → Keeps f m → ((a : A) → Keeps f (k a)) → Keeps f (m >>= k)
  >>=-Keeps m k hm hk w = continue-Keeps (m w) k hk ∙ hm w

pub Reply-cases :
    {A : Type 0} (x : Reply A) → ((a : A) × (x ≡ ok a)) ⊎ ((c : ErrorCode) × (x ≡ fail c))
Reply-cases (ok a) = inl (a, refl)
Reply-cases (fail c) = inr (c, refl)

-- A sequence that answers `ok` has passed its first part with `ok`.
pub continue-ok :
    {A B : Type 0} (x : Reply A × World) (k : A → Action B) {b : B}
    → (continue x k).0 ≡ ok b
    → (a : A) × (x.0 ≡ ok a) × (continue x k ≡ k a x.1)
continue-ok (ok a, w) k h = (a, refl, refl)
continue-ok (fail c, w) k h = cc

-- A database that answers every query.
pub try_read-up :
    {A : Type 0} (c : ErrorCode) (q : Tables → Option A) (w : World)
    → w.outages ≡ []
    → try_read c q w ≡ (or_fail (q w.tables) c, record w { outages = [] })
unfolding try_read
try_read-up c q w up = ground arith
