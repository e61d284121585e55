-- ===== src/Wallet/Withdraw/Laws.antt =====
-- What the two wallets change: a success broadcasts one transaction, an error at most one.
use web3_blitz.Base.{
  ℕ, ◌*◌, ◌≤◌, ◌≡◌, Bool, true, Option, none, some, [], ◌∷◌, ◌++◌, String, arith, Option-cases, inl,
  inr, ◌⊎◌, Bool-cases, ltb, not, ◌&&◌, ap, ◌∙◌,
}
use web3_blitz.Db.Models.{btc, eth}
use web3_blitz.Effects.{World}
use web3_blitz.Wallet.Node.{Node, EthTx}
use web3_blitz.Wallet.Withdraw.{
  WithdrawResult, broadcast, eth_tx, eth_send, btc_withdraw, eth_withdraw, gas_limit, max_gas_price,
}

-- A wallet's call changes at most the transactions that were sent.
abbrev OnlySends : World → Option WithdrawResult × World → Type 0
OnlySends w (r, w') = w' ≡ record w { sent = w'.sent }

pub btc_withdraw-OnlySends :
    (n : Node) (to : String) (a : ℕ) (w : World) → OnlySends w (btc_withdraw n to a w)
unfolding btc_withdraw
btc_withdraw-OnlySends n to a w = ground arith

pub eth_withdraw-OnlySends :
    (hot : Bool) (n : Node) (to : String) (a : ℕ) (w : World)
    → OnlySends w (eth_withdraw hot n to a w)
unfolding eth_withdraw eth_send
eth_withdraw-OnlySends hot n to a w = ground arith

-- bitcoind gets one transaction, to the address asked for, of the satoshis nearest to the amount.
pub btc_withdraw-some :
    (n : Node) (to : String) (a : ℕ) (w : World) {res : WithdrawResult}
    → (btc_withdraw n to a w).0 ≡ some res
    → (s : ℕ) × (n.new_amount a ≡ some s)
      × (n.decode_address to ≡ true)
      × ((btc_withdraw n to a w).1.sent
          ≡ w.sent ++ record { chain = btc; to = to; value = s; tx_id = res.tx_id } ∷ [])
unfolding btc_withdraw
btc_withdraw-some n to a w h = elim (Option-cases (n.new_amount a)) [
  | inl e ↦ absurd (ground arith)
  | inr (s, e) ↦ (s, e, ground arith, ground arith)
]

-- geth gets one transaction of exactly the amount, and never at more than 200 gwei of gas.
pub eth_withdraw-some :
    (hot : Bool) (n : Node) (to : String) (a : ℕ) (w : World) {res : WithdrawResult}
    → (eth_withdraw hot n to a w).0 ≡ some res
    → (p : ℕ) × (n.suggest_gas_price ≡ some p)
      × (p ≤ max_gas_price)
      × (res.fee ≡ gas_limit * p)
      × (hot ≡ true)
      × ((eth_withdraw hot n to a w).1.sent
          ≡ w.sent
            ++ record { chain = eth; to = n.hex_to_address to; value = a; tx_id = res.tx_id } ∷ [])
unfolding eth_withdraw
eth_withdraw-some hot n to a w h = elim (Option-cases n.suggest_gas_price) [
  | inl e ↦ absurd (ground arith)
  | inr (p, e) ↦ (p, e, ground arith, ground arith, ground arith, ground arith)
]

-- An error has broadcast nothing, or, when it is the node's, the transaction asked for.
pub btc_withdraw-none :
    (n : Node) (to : String) (a : ℕ) (w : World)
    → (btc_withdraw n to a w).0 ≡ none
    → ((btc_withdraw n to a w).1 ≡ w)
      ⊎ ((s : ℕ) × (tx : String) × (n.new_amount a ≡ some s)
          × ((btc_withdraw n to a w).1
              ≡ broadcast (record { chain = btc; to = to; value = s; tx_id = tx }) w))
unfolding btc_withdraw
btc_withdraw-none n to a w h = elim (Option-cases (n.new_amount a)) [
  | inl e ↦ inl (ground arith)
  | inr (s, e) ↦ elim (Option-cases (n.lost_to_address to s)) [
    | inl f ↦ inl (ground arith)
    | inr (tx, f) ↦ elim (Bool-cases (n.decode_address to)) [
      | inr d ↦ inl (ground arith)
      | inl d ↦ inr (s, tx, e, ground arith)
    ]
  ]
]

eth_send-none :
    (n : Node) (tx : EthTx) (w : World)
    → (eth_send n tx w).0 ≡ none
    → ((eth_send n tx w).1 ≡ w)
      ⊎ ((hash : String) × ((eth_send n tx w).1
            ≡ broadcast (record { chain = eth; to = tx.to; value = tx.value; tx_id = hash }) w))
unfolding eth_send
eth_send-none n tx w h = elim (Option-cases (n.sign_tx tx)) [
  | inl e ↦ inl (ground arith)
  | inr (hash, e) ↦ elim (Bool-cases (n.lost_transaction hash)) [
    | inr f ↦ inl (ground arith)
    | inl f ↦ inr (hash, ground arith)
  ]
]

pub eth_withdraw-none :
    (hot : Bool) (n : Node) (to : String) (a : ℕ) (w : World)
    → (eth_withdraw hot n to a w).0 ≡ none
    → ((eth_withdraw hot n to a w).1 ≡ w)
      ⊎ ((hash : String) × ((eth_withdraw hot n to a w).1
            ≡ broadcast
                (record { chain = eth; to = n.hex_to_address to; value = a; tx_id = hash })
                w))
unfolding eth_withdraw
eth_withdraw-none hot n to a w h = elim (Option-cases n.pending_nonce) [
  | inl e ↦ inl (ground arith)
  | inr (nonce, e) ↦ elim (Option-cases n.suggest_gas_price) [
    | inl f ↦ inl (ground arith)
    | inr (price, f) ↦ elim (Option-cases n.chain_id) [
      | inl g ↦ inl (ground arith)
      | inr (chain, g) ↦ elim (Bool-cases (hot && not (ltb max_gas_price price))) [
        | inr d ↦ inl (ground arith)
        | inl d ↦
            let tx = eth_tx n to a nonce price chain in
            let ran : eth_withdraw hot n to a w ≡ eth_send n tx w = ground arith in
            elim (eth_send-none n tx w (ground (arith, ran))) [
              | inl k ↦ inl (ap (λ (x : Option WithdrawResult × World). x.1) ran ∙ k)
              | inr (hash, k) ↦ inr (hash, ap (λ (x : Option WithdrawResult × World). x.1) ran ∙ k)
            ]
      ]
    ]
  ]
]
