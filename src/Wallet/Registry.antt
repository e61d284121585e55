-- ===== src/Wallet/Registry.antt =====
-- internal/wallet/types/types.go: the registry of deposit addresses, and
-- cmd/wallet-service/main.go: its recovery from the database.
use web3_blitz.Base.{
  ℕ, ◌≡◌, refl, Option, none, some, List, [], ◌∷◌, String, str_eq, eq_iff, arith, if◌then◌else◌,
}
use web3_blitz.Db.Models.{DepositAddress}

-- The map `data`: addresses and their users.
abbrev pub Registry : Type 0
Registry = List (String × ℕ)

pub register_address : String → ℕ → Registry → Registry
register_address a u [] = (a, u) ∷ []
register_address a u ((b, v) ∷ r) =
    if str_eq b a then (a, u) ∷ r else (b, v) ∷ register_address a u r

unfoldable pub lookup : String → Registry → Option ℕ
lookup a [] = none
lookup a ((b, v) ∷ r) = if str_eq b a then some v else lookup a r

-- The loop over `ListAllDepositAddresses` at the start of the service.
unfoldable restore : List DepositAddress → Registry → Registry
restore [] r = r
restore (d ∷ ds) r = restore ds (register_address d.address d.user_id r)

-- A lookup finds the last user that was registered for the address, and registering one address
-- leaves the others.
pub lookup-register_address :
    (a b : String) (u : ℕ) (r : Registry)
    → lookup b (register_address a u r) ≡ (if str_eq a b then some u else lookup b r)
unfolding lookup register_address
lookup-register_address a b u [] = refl
lookup-register_address a b u ((c, v) ∷ r) =
    ground (arith, lookup-register_address a b u r, eq_iff c a, eq_iff c b, eq_iff a b)
