-- ===== src/Wallet/Sweep/Surplus.antt =====
-- A sweep moves exactly the surplus.
use web3_blitz.Base.{
  ℕ, ◌+◌, ◌-◌, ◌*◌, ◌<◌, ◌≡◌, ◌⊎◌, inl, inr, refl, some, [], ◌∷◌, ◌++◌, String, arith, Option-cases,
  Bool-cases, Bool, true, false, ltb, not, ◌&&◌,
}
use web3_blitz.Db.Models.{btc, eth}
use web3_blitz.Effects.{World, Sent}
use web3_blitz.Wallet.Withdraw.{gas_limit, eth_tx}
use web3_blitz.Wallet.Sweep.{
  HotKey, good_key, Sweeper, send_btc, sweep_btc, send_eth, sweep_eth_with_key, sweep_eth,
}

abbrev is_good : HotKey → Bool
is_good good_key = true
is_good _ = false

send_btc-cases :
    (s : Sweeper) (a : ℕ) (w : World)
    → ((send_btc s a w).sent ≡ w.sent)
      ⊎ ((v : ℕ) × (tx : String) × (s.node.new_amount a ≡ some v)
          × ((send_btc s a w).sent
              ≡ w.sent ++ record { chain = btc; to = s.cold_addr_btc; value = v; tx_id = tx } ∷ []))
unfolding send_btc
send_btc-cases s a w =
    elim (Bool-cases (s.node.decode_address s.cold_addr_btc && not s.cancelled)) [
      | inr d ↦ inl (ground arith)
      | inl d ↦ elim (Option-cases (s.node.new_amount a)) [
        | inl e ↦ inl (ground arith)
        | inr (v, e) ↦ elim (Option-cases (s.node.send_to_address s.cold_addr_btc v)) [
          | inr (tx, f) ↦ inr (v, tx, e, ground arith)
          | inl f ↦ elim (Option-cases (s.node.lost_to_address s.cold_addr_btc v)) [
            | inl g ↦ inl (ground arith)
            | inr (tx, g) ↦ inr (v, tx, e, ground arith)
          ]
        ]
      ]
    ]

-- A sweep of the BTC wallet broadcasts nothing, or one transaction to the cold address of the
-- satoshis nearest to the balance less what stays and the buffer for the fee, which is then
-- positive.
pub sweep_btc_lem :
    (s : Sweeper) (w : World)
    → ((sweep_btc s w).sent ≡ w.sent)
      ⊎ ((balance : ℕ) × (v : ℕ) × (tx : String) × (s.btc_balance ≡ some balance)
          × (s.keep_btc + s.btc_fee_buffer < balance)
          × (s.node.new_amount (balance - s.keep_btc - s.btc_fee_buffer) ≡ some v)
          × ((sweep_btc s w).sent
              ≡ w.sent ++ record { chain = btc; to = s.cold_addr_btc; value = v; tx_id = tx } ∷ []))
unfolding sweep_btc
sweep_btc_lem s w = elim (Option-cases s.btc_balance) [
  | inl e ↦ inl (ground arith)
  | inr (b, e) ↦ elim (Bool-cases (ltb (s.keep_btc + s.btc_fee_buffer) b)) [
    | inr d ↦ inl (ground arith)
    | inl d ↦ elim (send_btc-cases s (b - s.keep_btc - s.btc_fee_buffer) w) [
      | inl f ↦ inl (ground (arith, f))
      | inr (v, tx, f, g) ↦ inr (b, v, tx, e, ground arith, f, ground (arith, g))
    ]
  ]
]

send_eth-cases :
    (s : Sweeper) (a price : ℕ) (w : World)
    → ((send_eth s a price w).sent ≡ w.sent)
      ⊎ ((tx : String) × ((send_eth s a price w).sent
            ≡ w.sent
              ++ record {
                chain = eth;
                to = s.node.hex_to_address s.cold_addr_eth;
                value = a;
                tx_id = tx;
              }
                ∷ []))
unfolding send_eth
send_eth-cases s a price w = elim (Option-cases s.node.pending_nonce) [
  | inl d ↦ inl (ground arith)
  | inr (nonce, d) ↦ elim (Option-cases s.node.chain_id) [
    | inl e ↦ inl (ground arith)
    | inr (chain, e) ↦
        elim (Option-cases (s.node.sign_tx (eth_tx s.node s.cold_addr_eth a nonce price chain))) [
          | inl f ↦ inl (ground arith)
          | inr (hash, f) ↦ elim (Bool-cases (s.node.send_transaction hash)) [
            | inl g ↦ inr (hash, ground arith)
            | inr g ↦ elim (Bool-cases (s.node.lost_transaction hash)) [
              | inr k ↦ inl (ground arith)
              | inl k ↦ inr (hash, ground arith)
            ]
          ]
        ]
  ]
]

-- A sweep of the ETH wallet broadcasts nothing, or one transaction to the cold address, whose value
-- is positive and together with its gas and what stays makes up the wallet's whole balance.
pub sweep_eth_lem :
    (s : Sweeper) (w : World)
    → ((sweep_eth s w).sent ≡ w.sent)
      ⊎ ((balance : ℕ) × (price : ℕ) × (tx : Sent) × (s.eth_balance ≡ some balance)
          × (s.node.suggest_gas_price ≡ some price)
          × (tx.to ≡ s.node.hex_to_address s.cold_addr_eth)
          × (0 < tx.value)
          × (tx.value + gas_limit * price + s.keep_eth ≡ balance)
          × ((sweep_eth s w).sent ≡ w.sent ++ tx ∷ []))
unfolding sweep_eth sweep_eth_with_key
sweep_eth_lem s w = elim (Option-cases s.eth_balance) [
  | inl d ↦ inl (ground arith)
  | inr (b, d) ↦ elim (Option-cases s.node.suggest_gas_price) [
    | inl e ↦ inl (ground arith)
    | inr (price, e) ↦
        elim (Bool-cases
          (ltb (gas_limit * price + s.keep_eth) b && not s.cancelled && is_good s.hot_key)) [
            | inr f ↦ inl (ground arith)
            | inl f ↦ elim (send_eth-cases s (b - gas_limit * price - s.keep_eth) price w) [
              | inl g ↦ inl (ground (arith, g))
              | inr (tx, g) ↦ inr (
                b,
                price,
                record {
                  chain = eth;
                  to = s.node.hex_to_address s.cold_addr_eth;
                  value = b - gas_limit * price - s.keep_eth;
                  tx_id = tx;
                },
                d,
                e,
                refl,
                ground arith,
                ground arith,
                ground (arith, g),
              )
            ]
          ]
  ]
]
