-- ===== src/Api/Withdraw/Broadcast.antt =====
-- `broadcastWithdrawal`: what a broadcast pays, and what it writes when it fails.
use web3_blitz.Base.{
  ℕ, ◌≡◌, ◌⊎◌, inl, inr, refl, Option, none, some, String, [], ◌∷◌, ◌++◌, arith, true, false, List,
  Bool-cases, ap, ◌∙◌,
}
use web3_blitz.Db.Models.{Chain, btc, eth, other, failed, Tables}
use web3_blitz.Db.Withdrawals.{admin_approve_reject_withdrawal}
use web3_blitz.Effects.{World, Sent, ignore_write, is_down}
use web3_blitz.Wallet.Node.{Node}
use web3_blitz.Wallet.Withdraw.{WithdrawResult, btc_withdraw, eth_withdraw}
use web3_blitz.Wallet.Withdraw.Laws.{
  btc_withdraw-OnlySends, eth_withdraw-OnlySends, btc_withdraw-some, eth_withdraw-some,
  btc_withdraw-none, eth_withdraw-none,
}
use web3_blitz.Api.Withdraw.{Env, broadcast_result, broadcast_withdrawal}

-- The transaction pays `a` to the address `to`: on BTC the satoshis that NewAmount gives, on ETH
-- the amount in wei.
abbrev pub Pays : Node → Chain → String → ℕ → Sent → Type 0
Pays n btc to a tx = (tx.chain ≡ btc) × (tx.to ≡ to) × (n.new_amount a ≡ some tx.value)
Pays n eth to a tx = (tx.chain ≡ eth) × (tx.to ≡ n.hex_to_address to) × (tx.value ≡ a)
Pays n (other c) to a tx = ⊥

-- The rows after a failed broadcast: the row is marked failed, unless that query fails too.
abbrev pub marked_failed : ℕ → Tables → Tables
marked_failed id t =
    (admin_approve_reject_withdrawal (record { tx_id = none; fee = 0; status = failed; id = id })
      t).1

-- A broadcast that succeeds sends one transaction, which pays what was asked for, and leaves the
-- database alone.
pub broadcast-some :
    (env : Env) (id : ℕ) (c : Chain) (to : String) (a : ℕ) (w : World) {res : WithdrawResult}
    → (broadcast_withdrawal env id c to a w).0 ≡ some res
    → (tx : Sent) × Pays env.node c to a tx
      × (tx.tx_id ≡ res.tx_id)
      × ((broadcast_withdrawal env id c to a w).1 ≡ record w { sent = w.sent ++ tx ∷ [] })
unfolding broadcast_withdrawal broadcast_result
broadcast-some env id btc to a w {res} h =
    let x = btc_withdraw env.node to a w in
    let h' : x.0 ≡ some res = ground arith in
    let (s, amount, _, sent) = btc_withdraw-some env.node to a w h' in
    (
      record { chain = btc; to = to; value = s; tx_id = res.tx_id },
      (refl, refl, amount),
      refl,
      ground (arith, sent, btc_withdraw-OnlySends env.node to a w),
    )
broadcast-some env id eth to a w {res} h =
    let x = eth_withdraw env.hot_key env.node to a w in
    let h' : x.0 ≡ some res = ground arith in
    let (p, _, _, _, _, sent) = eth_withdraw-some env.hot_key env.node to a w h' in
    (
      record { chain = eth; to = env.node.hex_to_address to; value = a; tx_id = res.tx_id },
      (refl, refl, refl),
      refl,
      ground (arith, sent, eth_withdraw-OnlySends env.hot_key env.node to a w),
    )
broadcast-some env id (other c) to a w h = cc

-- The transactions after a failed broadcast: those from before, or one more, which pays what was
-- asked for.
abbrev pub IsLost : Env → Chain → String → ℕ → List Sent → List Sent → Type 0
IsLost env c to a old new =
    (new ≡ old) ⊎ ((tx : Sent) × Pays env.node c to a tx × (new ≡ old ++ tx ∷ []))

-- The tables after a failed broadcast: on a supported chain the row is marked failed, if the
-- database answers that query.
abbrev pub IsMarked : ℕ → Chain → World → Tables → Type 0
IsMarked id c w t =
    ((is_down w.outages ≡ false) × (t ≡ marked_failed id w.tables))
    ⊎ (((is_down w.outages ≡ true) ⊎ ((name : String) × (c ≡ other name))) × (t ≡ w.tables))

broadcast_result-failed :
    (id : ℕ) (x : Option WithdrawResult × World) → (broadcast_result id x).0 ≡ none → x.0 ≡ none
unfolding broadcast_result
broadcast_result-failed id (none, w) h = refl
broadcast_result-failed id (some res, w) h = cc

broadcast_result-none :
    (id : ℕ) (c : Chain) (w : World) (x : Option WithdrawResult × World)
    → x.0 ≡ none
    → x.1.tables ≡ w.tables
    → x.1.outages ≡ w.outages
    → ((broadcast_result id x).1.sent ≡ x.1.sent) × IsMarked id c w (broadcast_result id x).1.tables
unfolding broadcast_result ignore_write
broadcast_result-none id c w (some res, v) h t o = cc
broadcast_result-none id c w (none, v) h t o = elim (Bool-cases (is_down w.outages)) [
  | inl d ↦ (ground (arith, o), inr (inl d, ground (arith, o, t)))
  | inr d ↦ (ground (arith, o), inl (d, ground (arith, o, t)))
]

-- A broadcast that fails sends nothing, or the one payment asked for, when the node took that one
-- before it returned its error.
pub broadcast-none :
    (env : Env) (id : ℕ) (c : Chain) (to : String) (a : ℕ) (w : World)
    → (broadcast_withdrawal env id c to a w).0 ≡ none
    → IsLost env c to a w.sent (broadcast_withdrawal env id c to a w).1.sent
      × IsMarked id c w (broadcast_withdrawal env id c to a w).1.tables
unfolding broadcast_withdrawal
broadcast-none env id btc to a w h =
    let x = btc_withdraw env.node to a w in
    let only = btc_withdraw-OnlySends env.node to a w in
    let failed : x.0 ≡ none = broadcast_result-failed id x h in
    let (sent, marked) =
      broadcast_result-none id btc w x failed (ap (λ (v : World). v.tables) only)
        (ap (λ (v : World). v.outages) only) in
    (
      elim (btc_withdraw-none env.node to a w failed) [
        | inl e ↦ inl (sent ∙ ap (λ (v : World). v.sent) e)
        | inr (s, tx, amount, e) ↦ inr (
          record { chain = btc; to = to; value = s; tx_id = tx },
          (refl, refl, amount),
          sent ∙ ap (λ (v : World). v.sent) e,
        )
      ],
      marked,
    )
broadcast-none env id eth to a w h =
    let x = eth_withdraw env.hot_key env.node to a w in
    let only = eth_withdraw-OnlySends env.hot_key env.node to a w in
    let failed : x.0 ≡ none = broadcast_result-failed id x h in
    let (sent, marked) =
      broadcast_result-none id eth w x failed (ap (λ (v : World). v.tables) only)
        (ap (λ (v : World). v.outages) only) in
    (
      elim (eth_withdraw-none env.hot_key env.node to a w failed) [
        | inl e ↦ inl (sent ∙ ap (λ (v : World). v.sent) e)
        | inr (hash, e) ↦ inr (
          record { chain = eth; to = env.node.hex_to_address to; value = a; tx_id = hash },
          (refl, refl, refl),
          sent ∙ ap (λ (v : World). v.sent) e,
        )
      ],
      marked,
    )
broadcast-none env id (other c) to a w h = (inl refl, inr (inr (c, refl), refl))
