-- ===== src/Wallet/Node.antt =====
-- What the wallets ask of bitcoind, geth and the libraries of btcsuite and go-ethereum in one call.
-- None of this is code of the repository, so a call takes the answers as an argument.
use web3_blitz.Base.{ℕ, Bool, Option, String}
use web3_blitz.Base.Int.{ℤ}

pub record EthTx : Type 0 where
  pub nonce : ℕ
  pub to : String
  pub value : ℕ
  pub gas_limit : ℕ
  pub gas_price : ℕ
  pub chain_id : ℕ

pub record Node : Type 0 where
  -- btcutil.DecodeAddress accepts the text
  pub decode_address : String → Bool
  -- btcutil.NewAmount: the satoshis nearest to an amount
  pub new_amount : ℕ → Option ℕ
  -- SendToAddress: the id of the transaction that bitcoind has broadcast
  pub send_to_address : String → ℕ → Option String
  -- the id of a transaction that bitcoind has broadcast although SendToAddress returned an error,
  -- a lost answer say
  pub lost_to_address : String → ℕ → Option String
  -- GetTransaction(...).Fee, in the units of an amount
  pub transaction_fee : String → Option ℤ
  -- common.IsHexAddress, and HexToAddress(...).Hex()
  pub is_hex_address : String → Bool
  pub hex_to_address : String → String
  pub pending_nonce : Option ℕ
  pub suggest_gas_price : Option ℕ
  pub chain_id : Option ℕ
  -- SignTx(...), with the hash of the signed transaction
  pub sign_tx : EthTx → Option String
  pub send_transaction : String → Bool
  -- geth has the transaction although SendTransaction returned an error
  pub lost_transaction : String → Bool
