-- ===== src/Wallet/Address/Generate.antt =====
-- What the generation of a deposit address registers and writes.
use web3_blitz.Base.{
  ℕ, ◌≡◌, inl, inr, refl, true, some, List, [], String, str_eq, arith, Option-cases, has_row,
  if◌then◌else◌, eq_refl, ◌++◌, ◌∷◌,
}
use web3_blitz.Db.Models.{Chain, btc, eth, other, DepositAddress}
use web3_blitz.Db.Deposits.{create_deposit_address, chain_allowed}
use web3_blitz.Effects.{World, ignore_write}
use web3_blitz.Wallet.Registry.{Registry, lookup, lookup-register_address}
use web3_blitz.Wallet.Address.{
  KeyTree, AddressResponse, address_at, parse_path, deposit_path, generate_deposit_address,
}

has_row-last :
    (address : String) (a : DepositAddress) (l : List DepositAddress)
    → a.address ≡ address
    → has_row (λ x. str_eq x.address address) (l ++ a ∷ []) ≡ true
unfolding has_row
has_row-last address a [] e = ground (arith, eq_refl address)
has_row-last address a (x ∷ l) e = ground (arith, has_row-last address a l e)

address_stored :
    (user : ℕ) (address : String) (chain : Chain) (path : String) (w : World)
    → w.outages ≡ []
    → chain_allowed chain ≡ true
    → has_row
        (λ a. str_eq a.address address)
        (ignore_write (create_deposit_address user address chain path) w).1.tables.deposit_addresses
      ≡ true
unfolding ignore_write create_deposit_address
address_stored user address chain path w up s = ground (
  arith,
  has_row-last address
      (record {
        id = w.tables.address_seq;
        user_id = user;
        address = address;
        chain = chain;
        path = path;
      })
      w.tables.deposit_addresses refl,
)

derived_allowed :
    (t : KeyTree) (chain : Chain) (path : List ℕ) {a : String}
    → address_at t chain path ≡ some a
    → chain_allowed chain ≡ true
derived_allowed t btc path h = refl
derived_allowed t eth path h = refl
derived_allowed t (other c) path h = cc

-- An address that is generated is the one of the key tree at the user's path; from then on the
-- registry gives it to this user, whoever had it before, and every other address to whom it did
-- before. With a database that answers, the table of addresses has a row for the address.
pub generate_deposit_address_lem :
    (t : KeyTree) (chain : Chain) (user : ℕ) (r : Registry) (w : World) (res : AddressResponse)
    (b : String)
    → (generate_deposit_address t chain user r w).0 ≡ some res
    → (address_at t chain (parse_path (deposit_path chain user)) ≡ some res.address)
      × (res.user_id ≡ user)
      × (lookup b (generate_deposit_address t chain user r w).1.0
          ≡ (if str_eq res.address b then some user else lookup b r))
      × (w.outages ≡ []
          → has_row
              (λ a. str_eq a.address res.address)
              (generate_deposit_address t chain user r w).1.1.tables.deposit_addresses
            ≡ true)
unfolding generate_deposit_address
generate_deposit_address_lem t chain user r w res b h =
    let path = deposit_path chain user in
    elim (Option-cases (address_at t chain (parse_path path))) [
      | inl e ↦ absurd (ground arith)
      | inr (a, e) ↦ (
        ground arith,
        ground arith,
        ground (arith, lookup-register_address a b user r),
        λ up.
            (let allowed = derived_allowed t chain (parse_path path) {a = a} e in
              let stored = address_stored user a chain path w up allowed in ground (arith, stored)),
      )
    ]
