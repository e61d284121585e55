-- ===== src/Db/Deposits.antt =====
-- The queries of internal/db/queries.sql.go on the deposits, deposit_addresses and dead_letters
-- tables.
use mathlib.Core.List.{reverse}
use web3_blitz.Base.{
  ℕ, ◌+◌, Bool, true, false, ◌&&◌, ◌||◌, not, Option, none, some, List, [], ◌∷◌, ◌++◌, String, ◌==◌,
  leb, str_eq, select, find_row, has_row, update_where, order_by, sum_by, if◌then◌else◌,
}
use web3_blitz.Db.Models.{
  Chain, btc, eth, other, chain_eq, Deposit, DepositAddress, CreateDepositParams, DeadLetter,
  Tables,
}

-- CHECK(chain IN ('btc','eth'))
abbrev pub chain_allowed : Chain → Bool
chain_allowed btc = true
chain_allowed eth = true
chain_allowed (other s) = false

abbrev pub new_deposit : ℕ → CreateDepositParams → Deposit
new_deposit id p = record {
  id = id;
  tx_id = p.tx_id;
  address = p.address;
  user_id = p.user_id;
  amount = p.amount;
  height = p.height;
  confirmed = p.confirmed;
  chain = p.chain;
}

-- An INSERT refused by UNIQUE(tx_id) or by the CHECK still uses up an id.
unfoldable pub create_deposit : CreateDepositParams → Tables → Option (Unit {0}) × Tables
create_deposit p t =
    let row = new_deposit t.deposit_seq p in
    let t' = record t { deposit_seq = t.deposit_seq + 1 } in
    if has_row (λ d. str_eq d.tx_id p.tx_id) t.deposits || not (chain_allowed p.chain)
    then (none, t')
    else (some tt, record t' { deposits = t.deposits ++ row ∷ [] })

-- user_id = $1 AND chain = $2 AND confirmed = 1
abbrev pub is_confirmed_of : ℕ → Chain → Deposit → Bool
is_confirmed_of user chain d = d.user_id == user && chain_eq d.chain chain && d.confirmed == 1

-- SELECT COALESCE(SUM(amount), 0)
abbrev pub deposited : ℕ → Chain → Tables → ℕ
deposited user chain t = sum_by (λ d. d.amount) (select (is_confirmed_of user chain) t.deposits)

unfoldable pub get_total_deposit_by_user_id_and_chain : ℕ → Chain → Tables → Option ℕ
get_total_deposit_by_user_id_and_chain user chain t = some (deposited user chain t)

unfoldable get_total_deposit_by_chain : Chain → Tables → Option ℕ
get_total_deposit_by_chain chain t =
    some
      (sum_by (λ d. d.amount) (select (λ d. chain_eq d.chain chain && d.confirmed == 1) t.deposits))

unfoldable get_all_chains_total_deposit : Tables → Option ℕ
get_all_chains_total_deposit t =
    some (sum_by (λ d. d.amount) (select (λ d. d.confirmed == 1) t.deposits))

unfoldable get_deposit_by_tx_id : String → Tables → Option Deposit
get_deposit_by_tx_id tx t = find_row (λ d. str_eq d.tx_id tx) t.deposits

pub list_deposits_by_user_id : ℕ → Tables → Option (List Deposit)
list_deposits_by_user_id user t = some (reverse (select (λ d. d.user_id == user) t.deposits))

unfoldable list_deposits_by_chain : Chain → Tables → Option (List Deposit)
list_deposits_by_chain chain t = some (reverse (select (λ d. chain_eq d.chain chain) t.deposits))

-- chain = $1 AND height >= $2 AND height <= $3
unfoldable pub list_deposits_by_chain_and_height_range :
    Chain → ℕ → ℕ → Tables → Option (List Deposit)
list_deposits_by_chain_and_height_range chain lo hi t = some (
    order_by (λ d. d.height)
      (select (λ d. chain_eq d.chain chain && leb lo d.height && leb d.height hi) t.deposits))

unfoldable pub list_unconfirmed_deposits : Tables → Option (List Deposit)
list_unconfirmed_deposits t =
    some (order_by (λ d. d.height) (select (λ d. d.confirmed == 0) t.deposits))

unfoldable pub update_deposit_confirmed : ℕ → Tables → Option (Unit {0}) × Tables
update_deposit_confirmed id t = (
  some tt,
  record t {
    deposits = update_where (λ d. d.id == id) (λ d. record d { confirmed = 1 }) t.deposits;
  },
)

-- ON CONFLICT (address) DO NOTHING; the CHECK on the chain still refuses the row.
unfoldable pub create_deposit_address :
    ℕ → String → Chain → String → Tables → Option (Unit {0}) × Tables
create_deposit_address user address chain path t =
    let row : DepositAddress = record {
      id = t.address_seq;
      user_id = user;
      address = address;
      chain = chain;
      path = path;
    } in
    let t' = record t { address_seq = t.address_seq + 1 } in
    if not (chain_allowed chain)
    then (none, t')
    else if has_row (λ a. str_eq a.address address) t.deposit_addresses
    then (some tt, t')
    else (some tt, record t' { deposit_addresses = t.deposit_addresses ++ row ∷ [] })

unfoldable pub list_all_deposit_addresses : Tables → Option (List DepositAddress)
list_all_deposit_addresses t = some t.deposit_addresses

unfoldable get_address_by_address : String → Tables → Option DepositAddress
get_address_by_address address t = find_row (λ a. str_eq a.address address) t.deposit_addresses

unfoldable list_addresses_by_user_id : ℕ → Tables → Option (List DepositAddress)
list_addresses_by_user_id user t = some (select (λ a. a.user_id == user) t.deposit_addresses)

unfoldable list_deposit_addresses_by_chain : Chain → Tables → Option (List DepositAddress)
list_deposit_addresses_by_chain chain t =
    some (select (λ a. chain_eq a.chain chain) t.deposit_addresses)

unfoldable pub create_dead_letter :
    String → CreateDepositParams → ℕ → Tables → Option (Unit {0}) × Tables
create_dead_letter kind payload retries t =
    let row : DeadLetter = record {
      id = t.dead_letter_seq;
      kind = kind;
      payload = payload;
      retries = retries;
      resolved = false;
    } in
    (
      some tt,
      record t {
        dead_letters = t.dead_letters ++ row ∷ [];
        dead_letter_seq = t.dead_letter_seq + 1;
      },
    )

unfoldable list_unresolved_dead_letters : Tables → Option (List DeadLetter)
list_unresolved_dead_letters t = some (select (λ d. not d.resolved) t.dead_letters)

unfoldable resolve_dead_letter : ℕ → Tables → Option (Unit {0}) × Tables
resolve_dead_letter id t = (
  some tt,
  record t {
    dead_letters =
        update_where (λ d. d.id == id) (λ d. record d { resolved = true }) t.dead_letters;
  },
)
