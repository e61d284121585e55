-- ===== src/Wallet/Withdraw.antt =====
-- internal/wallet/btc/withdraw.go and internal/wallet/eth/withdraw.go: signing and broadcasting.
pub mod Laws
use web3_blitz.Base.{
  ℕ, suc, ◌*◌, Bool, Option, none, some, [], ◌∷◌, ◌++◌, String, ltb, if◌then◌else◌,
}
use web3_blitz.Base.Int.{ℤ, pos, negsuc}
use web3_blitz.Db.Models.{btc, eth}
use web3_blitz.Effects.{World, Sent}
use web3_blitz.Wallet.Node.{Node, EthTx}

pub record WithdrawResult : Type 0 where
  pub tx_id : String
  pub fee : ℕ

-- A node has taken the transaction.
abbrev pub broadcast : Sent → World → World
broadcast s w = record w { sent = w.sent ++ s ∷ [] }

-- After an error of bitcoind: its wallet may have broadcast the transaction all the same.
abbrev pub btc_lost : Node → String → ℕ → World → World
btc_lost n to satoshis w = elim (n.lost_to_address to satoshis) [
  | none ↦ w
  | some tx ↦ broadcast (record { chain = btc; to = to; value = satoshis; tx_id = tx }) w
]

abbrev abs : ℤ → ℕ
abs (pos a) = a
abs (negsuc a) = suc a

-- `queryFee`: 0 when the transaction cannot be read back, else the fee without its sign.
unfoldable query_fee : Node → String → ℕ
query_fee n tx = elim (n.transaction_fee tx) [ none ↦ 0 | some f ↦ abs f ]

-- `BTCWallet.Withdraw`; `none` is any of its errors, and one of `SendToAddress` does not say that
-- nothing was broadcast.
pub btc_withdraw : Node → String → ℕ → World → Option WithdrawResult × World
unfolding query_fee
btc_withdraw n to amount w =
    if n.decode_address to
    then elim (n.new_amount amount) [
      | none ↦ (none, w)
      | some satoshis ↦ elim (n.send_to_address to satoshis) [
        | none ↦ (none, btc_lost n to satoshis w)
        | some tx ↦ (
          some (record { tx_id = tx; fee = query_fee n tx }),
          broadcast (record { chain = btc; to = to; value = satoshis; tx_id = tx }) w,
        )
      ]
    ]
    else (none, w)

abbrev max_gas_price : ℕ
max_gas_price = 200000000000

abbrev pub gas_limit : ℕ
gas_limit = 21000

abbrev pub eth_tx : Node → String → ℕ → ℕ → ℕ → ℕ → EthTx
eth_tx n to amount nonce price chain = record {
  nonce = nonce;
  to = n.hex_to_address to;
  value = amount;
  gas_limit = gas_limit;
  gas_price = price;
  chain_id = chain;
}

-- Signing and `SendTransaction`, and the fee `gasLimit * gasPrice` in wei; after an error of
-- `SendTransaction` the node may have the transaction all the same.
unfoldable pub eth_send : Node → EthTx → World → Option WithdrawResult × World
eth_send n tx w = elim (n.sign_tx tx) [
  | none ↦ (none, w)
  | some hash ↦
      let s : Sent = record { chain = eth; to = tx.to; value = tx.value; tx_id = hash } in
      if n.send_transaction hash
      then (some (record { tx_id = hash; fee = tx.gas_limit * tx.gas_price }), broadcast s w)
      else (none, if n.lost_transaction hash then broadcast s w else w)
]

-- `ETHWallet.Withdraw`: the hot key is configured or not; the amount in wei is the amount.
unfoldable pub eth_withdraw : Bool → Node → String → ℕ → World → Option WithdrawResult × World
unfolding eth_send
eth_withdraw hot_key n to amount w =
    if hot_key
    then elim n.pending_nonce [
      | none ↦ (none, w)
      | some nonce ↦ elim n.suggest_gas_price [
        | none ↦ (none, w)
        | some price ↦ if ltb max_gas_price price then (none, w) else elim n.chain_id [
          | none ↦ (none, w)
          | some chain ↦ eth_send n (eth_tx n to amount nonce price chain) w
        ]
      ]
    ]
    else (none, w)
