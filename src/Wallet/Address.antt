-- ===== src/Wallet/Address.antt =====
-- internal/wallet/btc/btc.go and internal/wallet/eth/eth.go: deposit addresses, and the paths of
-- internal/wallet/core/hd.go.
pub mod Generate
use Prim.Native.Char.{Char, code}
use Prim.Native.String.{slice, ◌++◌ as append}
use web3_blitz.Base.{
  ℕ, zero, suc, ◌+◌, ◌-◌, ◌*◌, ◌/◌, ◌%◌, ◌^◌, Bool, true, false, ◌&&◌, Option, none, some, List, [],
  ◌∷◌, String, ◌==◌, ltb, leb, str_eq, if◌then◌else◌,
}
use web3_blitz.Code.{internal}
use web3_blitz.Db.Models.{Chain, btc, eth, other}
use web3_blitz.Db.Deposits.{create_deposit_address}
use web3_blitz.Effects.{World, ignore_write}
use web3_blitz.Wallet.Registry.{Registry, register_address}

-- A byte of a path: the number after it, where a quote hardens and a slash starts the next one.
abbrev next_number : ℕ → ℕ → ℕ
next_number current k =
    if leb b'0' k && leb k b'9'
    then (current * 10 + (k - b'0')) % 2 ^ 32
    else if k == 39
    then if ltb current (2 ^ 31) then current + 2 ^ 31 else current
    else if k == b'/'
    then 0
    else current

-- The loop of `parsePath`; bytes of a character that is not ASCII change nothing.
unfoldable pub parse_from : ℕ → String → List ℕ
parse_from current String.[] = current ∷ []
parse_from current (String.◌∷◌ c s) =
    let rest = parse_from (next_number current (code c)) s in
    if code c == b'/' then current ∷ rest else rest

-- `parsePath`, after the prefix "m/".
abbrev parse_segments : String → List ℕ
parse_segments p = if str_eq p "" then [] else parse_from 0 p

unfoldable pub parse_path : String → List ℕ
parse_path (String.◌∷◌ c (String.◌∷◌ d s)) =
    if code c == b'm' && code d == b'/'
    then parse_segments s
    else parse_segments (String.◌∷◌ c (String.◌∷◌ d s))
parse_path p = parse_segments p

-- `fmt.Sprintf("%d", n)`; as many digits as n + 1 are enough.
unfoldable pub decimal_from : ℕ → ℕ → String
decimal_from zero n = ""
decimal_from (suc f) n =
    let rest = decimal_from f (n / 10) in
    let digit = slice "0123456789" (n % 10) (n % 10 + 1) in
    if ltb n 10 then digit else append rest digit

abbrev decimal : ℕ → String
decimal n = decimal_from (suc n) n

-- The loop over the user id, modulo 2^32.
unfoldable pub index_from : ℕ → String → ℕ
index_from index String.[] = index
index_from index (String.◌∷◌ c s) = index_from ((index * 31 + code c) % 2 ^ 32) s

abbrev user_index : ℕ → ℕ
user_index user = index_from 0 (decimal user)

abbrev path_prefix : Chain → String
path_prefix eth = "m/44'/60'/0'/0/"
path_prefix _ = "m/44'/0'/0'/0/"

unfoldable pub deposit_path : Chain → ℕ → String
deposit_path chain user = append (path_prefix chain) (decimal (user_index user))

-- The tree of keys with the address of each: `none` when the derivation fails.
pub record KeyTree : Type 0 where
  pub btc_address : List ℕ → Option String
  pub eth_address : List ℕ → Option String

abbrev pub address_at : KeyTree → Chain → List ℕ → Option String
address_at t btc path = t.btc_address path
address_at t eth path = t.eth_address path
address_at t (other c) path = none

pub record AddressResponse : Type 0 where
  pub address : String
  pub path : String
  pub user_id : ℕ

-- `GenerateDepositAddress` of the two wallets: the address is registered, and written to the
-- database, whose error is only logged.
unfoldable pub generate_deposit_address :
    KeyTree → Chain → ℕ → Registry → World → Option AddressResponse × (Registry × World)
generate_deposit_address t chain user r w =
    let path = deposit_path chain user in
    elim (address_at t chain (parse_path path)) [
      | none ↦ (none, (r, w))
      | some address ↦ (
        some (record { address = address; path = path; user_id = user }),
        (
          register_address address user r,
          (ignore_write (create_deposit_address user address chain path) w).1,
        ),
      )
    ]
