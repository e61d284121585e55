-- ===== src/Wallet/Clients.antt =====
-- internal/wallet/btc/network.go and btc.go, internal/wallet/eth/eth.go: the network of bitcoin, the hot
-- key of the ETH wallet, and the balances that the nodes report. A text is the list of its bytes.
use web3_blitz.Base.{
  ◌≡◌, refl, Bool, ◌&&◌, ◌||◌, Option, none, some, [], ◌∷◌, ◌++◌, ◌==◌, ℕ, ◌+◌, leb, String, arith,
  Bool-cases, inl, inr, if◌then◌else◌,
}
use web3_blitz.Codegen.{Text, text}
use web3_blitz.Codegen.Values.{trim_from}
use web3_blitz.Mail.{text_eq}
use web3_blitz.Wallet.Seed.{Bytes, decode_hex}

data Network : Type 0 where
  mainnet testnet3 simnet regtest : Network

abbrev is_blank : ℕ → Bool
is_blank c = (leb 9 c && leb c 13) || c == b' '

abbrev trim_left : Text → Text
trim_left [] = []
trim_left (c ∷ s) = let rest = trim_left s in if is_blank c then rest else c ∷ s

abbrev or_blank : ℕ → Text → Text
or_blank c [] = if is_blank c then [] else c ∷ []
or_blank c (d ∷ s) = c ∷ d ∷ s

abbrev trim_right : Text → Text
trim_right [] = []
trim_right (c ∷ s) = or_blank c (trim_right s)

abbrev to_lower : Text → Text
to_lower [] = []
to_lower (c ∷ s) = (if leb b'A' c && leb c b'Z' then c + 32 else c) ∷ to_lower s

abbrev network_of : Text → Option Network
network_of raw =
    if text_eq raw (text "mainnet")
    then some mainnet
    else if text_eq raw (text "testnet") || text_eq raw (text "testnet3")
    then some testnet3
    else if text_eq raw (text "simnet")
    then some simnet
    else if text_eq raw (text "regtest") || text_eq raw []
    then some regtest
    else none

-- `NetParams` for a text in ASCII, with what an earlier call has kept and the variable BTC_NETWORK; `none` is a panic.
unfoldable net_params : Option Network → Text → Option Network
net_params (some n) env = some n
net_params none env = network_of (to_lower (trim_right (trim_left env)))

networks :
    (net_params none (text " TestNet\n") ≡ some testnet3)
    × (net_params none [] ≡ some regtest)
    × (net_params none (text "signet") ≡ none)
unfolding net_params text_eq
networks = (refl, refl, refl)

-- `strings.TrimPrefix(s, "0x")`
abbrev without_0x : Text → Text
without_0x s = trim_from s (text "0x") s

module _ {Key : Type 0} (to_ecdsa : Bytes → Option Key) where
  abbrev key_of : Option Bytes → Option Key
  key_of none = none
  key_of (some bytes) = to_ecdsa bytes

  -- The hot key in `NewETHWallet`; a text that gives none leaves the wallet without one.
  unfoldable hot_key : Text → Option Key
  hot_key [] = none
  hot_key (c ∷ s) = key_of (decode_hex (without_0x (c ∷ s)))

  -- Hexadecimal digits do not begin with 0x.
  digits-without_0x :
      (c : ℕ) (s : Text) {bytes : Bytes}
      → decode_hex (c ∷ s) ≡ some bytes
      → without_0x (c ∷ s) ≡ c ∷ s
  unfolding decode_hex trim_from
  digits-without_0x c [] h = cc
  digits-without_0x c (d ∷ s) h = elim (Bool-cases (c == b'0')) [
    | inr e ↦ rw e refl
    | inl e ↦ elim (Bool-cases (d == b'x')) [
      | inr f ↦ rw (e, f) refl
      | inl f ↦ absurd (ground arith)
    ]
  ]

  -- The digits of a key give the same key with 0x before them and without.
  hot_key-prefix :
      (c : ℕ) (s : Text) {bytes : Bytes}
      → decode_hex (c ∷ s) ≡ some bytes
      → hot_key (text "0x" ++ c ∷ s) ≡ hot_key (c ∷ s)
  unfolding hot_key trim_from
  hot_key-prefix c s h = rw (digits-without_0x c s h) refl

-- `BTCWallet.GetBalance`, with what btcutil and bitcoind answer.
unfoldable btc_balance : (String → Bool) → (String → Option ℕ) → String → Option ℕ
btc_balance decodes received address = if decodes address then received address else none

-- `ETHWallet.GetBalance`, of the address that `common.HexToAddress` makes of any text.
unfoldable eth_balance : (String → String) → (String → Option ℕ) → String → Option ℕ
eth_balance hex_to_address balance_at address = balance_at (hex_to_address address)
