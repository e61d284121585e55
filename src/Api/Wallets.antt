-- ===== src/Api/Wallets.antt =====
-- internal/api/wallet.go: `GenerateAddress` and the handlers that only read.
use web3_blitz.Base.{
  ℕ, Bool, true, false, ◌||◌, Option, none, some, List, String, str_eq, if◌then◌else◌,
}
use web3_blitz.Code.{invalid_arg, internal, wallet_chain_not_supported}
use web3_blitz.Db.Models.{Chain, btc, eth, other, Deposit, Withdrawal}
use web3_blitz.Db.Deposits.{list_deposits_by_user_id, get_total_deposit_by_user_id_and_chain}
use web3_blitz.Db.Withdrawals.{list_withdrawals_by_user_id}
use web3_blitz.Effects.{
  World, Reply, ok, fail, Action, ◌>>=◌, ◌>>◌, pure, fail_if, or_fail, try_read,
}
use web3_blitz.Money.{scan}
use web3_blitz.Wallet.Registry.{Registry}
use web3_blitz.Wallet.Address.{KeyTree, AddressResponse, generate_deposit_address}
use web3_blitz.Api.Request.{Method, Request, need_method, need_body, need_claims}

abbrev is_supported : Chain → Bool
is_supported (other c) = false
is_supported _ = true

-- A request for an address that has passed the tests.
unfoldable checked_address : Request Chain → Action (ℕ × Chain)
checked_address r = do
  need_method Method.post r
  claims ← need_claims r
  chain ← need_body r
  fail_if (if is_supported chain then false else true) wallet_chain_not_supported
  pure (claims.user_id, chain)

-- The answer of a wallet.
abbrev address_reply :
    Option AddressResponse × (Registry × World) → Reply AddressResponse × (Registry × World)
address_reply (res, s) = (or_fail res internal, s)

abbrev after_checked :
    KeyTree → Registry → Reply (ℕ × Chain) × World → Reply AddressResponse × (Registry × World)
after_checked t r (fail c, w) = (fail c, (r, w))
after_checked t r (ok (user, chain), w) = address_reply (generate_deposit_address t chain user r w)

-- `GenerateAddress`; the body is the chain.
unfoldable generate_address :
    KeyTree → Request Chain → Registry → World → Reply AddressResponse × (Registry × World)
generate_address t req r w = after_checked t r (checked_address req w)

-- The parameters of a query string.
record BalanceQuery : Type 0 where
  pub address : String
  pub chain : String

record BalanceResponse : Type 0 where
  pub address : String
  pub balance : ℕ
  pub chain : Chain

-- `GetBalance`, with what the node of each chain answers for an address.
unfoldable get_balance :
    {B : Type 0}
    → (String → Option ℕ)
    → (String → Option ℕ)
    → BalanceQuery
    → Request B
    → Action BalanceResponse
get_balance btc_balance eth_balance q r = do
  need_method Method.get r
  fail_if (str_eq q.address "" || str_eq q.chain "") invalid_arg
  fail_if (if str_eq q.chain "btc" || str_eq q.chain "eth" then false else true)
      wallet_chain_not_supported
  λ w. (
    if str_eq q.chain "btc"
        then elim (btc_balance q.address) [
          | none ↦ fail internal
          | some b ↦ ok (record { address = q.address; balance = b; chain = btc })
        ]
        else elim (eth_balance q.address) [
          | none ↦ fail internal
          | some b ↦ ok (record { address = q.address; balance = b; chain = eth })
        ],
    w,
  )

unfoldable list_deposits : {B : Type 0} → Request B → Action (List Deposit)
list_deposits r = do
  need_method Method.get r
  claims ← need_claims r
  try_read internal (list_deposits_by_user_id claims.user_id)

-- `GetTotalBalance` of a chain that the query string names, `none` when it names none.
unfoldable get_total_balance : {B : Type 0} → Option Chain → Request B → Action ℕ
get_total_balance chain r = do
  need_method Method.get r
  claims ← need_claims r
  c ← λ w. (or_fail chain invalid_arg, w)
  total ← try_read internal (get_total_deposit_by_user_id_and_chain claims.user_id c)
  pure (scan total)

unfoldable list_withdrawals : {B : Type 0} → Request B → Action (List Withdrawal)
list_withdrawals r = do
  need_method Method.get r
  claims ← need_claims r
  try_read internal (list_withdrawals_by_user_id claims.user_id)
