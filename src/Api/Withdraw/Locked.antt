-- ===== src/Api/Withdraw/Locked.antt =====
-- The lock of `Withdraw`: taken once, and given back however the handler ends.
use web3_blitz.Base.{
  ℕ, ◌≡◌, refl, true, false, not, List, [], ◌∷◌, Option, none, some, String, eq_refl, select,
  has_row, arith, ◌∙◌, ap, Bool-cases, inl, inr, ◌⊎◌, false,
}
use web3_blitz.Db.Models.{Chain, btc, eth, other, chain_eq, Withdrawal}
use web3_blitz.Db.Withdrawals.{create_withdrawal}
use web3_blitz.Effects.{World, Reply, ok, Action, LockKey, try_write, ignore_write, is_down}
use web3_blitz.Effects.Laws.{Keeps, Reply-cases}
use web3_blitz.Wallet.Withdraw.{WithdrawResult}
use web3_blitz.Wallet.Withdraw.Laws.{btc_withdraw-OnlySends, eth_withdraw-OnlySends}
use web3_blitz.Api.Request.{Request}
use web3_blitz.Api.Withdraw.{
  Env, WithdrawBody, WithdrawRequest, WithdrawReply, checked, key_eq, lock_key, acquire, release,
  broadcast_result, broadcast_withdrawal, auto_reply, check_balance, after_insert, submit,
  withdraw_locked, with_lock, withdraw,
}
use web3_blitz.Api.Withdraw.Checks.{check_balance-IsQuiet, check_limit-IsQuiet, checked-eq_self}
use web3_blitz.Api.Withdraw.Submit.{after_checks}
use web3_blitz.Api.Withdraw.Funds.{withdraw-checked}

chain_eq_refl : (c : Chain) → chain_eq c c ≡ true
chain_eq_refl btc = refl
chain_eq_refl eth = refl
chain_eq_refl (other s) = eq_refl s

key_eq_refl : (k : LockKey) → key_eq k k ≡ true
key_eq_refl k = ground (arith, chain_eq_refl k.chain)

select-free :
    (k : LockKey) (l : List LockKey)
    → has_row (key_eq k) l ≡ false
    → select (λ j. not (key_eq k j)) l ≡ l
unfolding select has_row
select-free k [] h = refl
select-free k (j ∷ l) h = ground (arith, select-free k l)

-- Taking a free key and giving it back leaves the keys as they were.
select-cons :
    (k : LockKey) (l : List LockKey)
    → has_row (key_eq k) l ≡ false
    → select (λ j. not (key_eq k j)) (k ∷ l) ≡ l
unfolding select
select-cons k l h = rw (key_eq_refl k) (select-free k l h)

-- The keys after a handler: those from before, or one more, when etcd did not carry out the Revoke.
abbrev pub IsReleased : Env → LockKey → List LockKey → List LockKey → Type 0
IsReleased env k old new =
    (new ≡ old) ⊎ ((env.revokes ≡ false) × (has_row (key_eq k) old ≡ false) × (new ≡ k ∷ old))

with_lock-IsReleased :
    {A : Type 0} (env : Env) (k : LockKey) (m : Action A) (w : World)
    → Keeps (λ w. w.held) m
    → IsReleased env k w.held (with_lock env k m w).1.held
unfolding with_lock acquire release
with_lock-IsReleased env k m w keeps = elim (Bool-cases env.revokes) [
  | inl e ↦ inl (ground (arith, keeps (record w { held = k ∷ w.held }), select-cons k w.held))
  | inr e ↦ elim (Bool-cases (has_row (key_eq k) w.held)) [
    | inl f ↦ inl (ground arith)
    | inr f ↦ ground (arith, keeps (record w { held = k ∷ w.held }))
  ]
]

broadcast_result-held :
    (id : ℕ) (x : Option WithdrawResult × World) → (broadcast_result id x).1.held ≡ x.1.held
unfolding broadcast_result ignore_write
broadcast_result-held id (none, w) = ground arith
broadcast_result-held id (some res, w) = refl

broadcast-held :
    (env : Env) (id : ℕ) (c : Chain) (to : String) (a : ℕ) (w : World)
    → (broadcast_withdrawal env id c to a w).1.held ≡ w.held
unfolding broadcast_withdrawal
broadcast-held env id btc to a w =
    broadcast_result-held id _ ∙ ap (λ (v : World). v.held) (btc_withdraw-OnlySends env.node to a w)
broadcast-held env id eth to a w =
    broadcast_result-held id _
    ∙ ap (λ (v : World). v.held) (eth_withdraw-OnlySends env.hot_key env.node to a w)
broadcast-held env id (other c) to a w = refl

auto_reply-held :
    (q : WithdrawRequest) (id : ℕ) (x : Option WithdrawResult × World)
    → (auto_reply q id x).1.held ≡ x.1.held
unfolding auto_reply
auto_reply-held q id (none, w) = refl
auto_reply-held q id (some res, w) = refl

after_insert-held :
    (env : Env) (q : WithdrawRequest) (row : Withdrawal) (w : World)
    → (after_insert env q row w).1.held ≡ w.held
unfolding after_insert
after_insert-held env q row w = ground (
  arith,
  auto_reply-held q row.id (broadcast_withdrawal env row.id q.chain q.to_address q.amount w),
  broadcast-held env row.id q.chain q.to_address q.amount w,
)

submit-held : (env : Env) (q : WithdrawRequest) → Keeps (λ w. w.held) (submit env q)
unfolding submit try_write create_withdrawal
submit-held env q w = elim (Bool-cases (is_down w.outages)) [
  | inl e ↦ rw e
  | inr e ↦ rw e (after_insert-held env q _ _)
]

withdraw_locked-held :
    (env : Env) (q : WithdrawRequest) → Keeps (λ w. w.held) (withdraw_locked env q)
unfolding withdraw_locked
withdraw_locked-held env q w = ground (
  arith,
  check_balance-IsQuiet q w,
  check_limit-IsQuiet q (check_balance q w).1,
  submit-held env q (after_checks q w),
)

-- Whatever the request and however the handler ends, the lock keys in etcd are those from before,
-- unless etcd did not carry out the Revoke, whose error the code drops, of a request that passed
-- the checks above the lock and found its key free: then they may be those and that key, which is
-- the caller's on the chain.
pub withdraw-held :
    (env : Env) (r : Request WithdrawBody) (w : World)
    → ((withdraw env r w).1.held ≡ w.held)
      ⊎ ((q : WithdrawRequest) × ((checked env r w).0 ≡ ok q)
          × (env.revokes ≡ false)
          × (has_row (key_eq (lock_key q)) w.held ≡ false)
          × ((withdraw env r w).1.held ≡ lock_key q ∷ w.held))
unfolding withdraw
withdraw-held env r w =
    let same = checked-eq_self env r w in
    elim (Reply-cases (checked env r w).0) [
      | inr (c, e) ↦ inl (ground (arith, same))
      | inl (q, e) ↦
          let held =
            ap (λ (x : Reply WithdrawReply × World). x.1.held) (withdraw-checked env r w q e) in
          elim (with_lock-IsReleased env (lock_key q) _ w (withdraw_locked-held env q)) [
            | inl k ↦ inl (held ∙ k)
            | inr (off, free, k) ↦ inr (q, e, off, free, held ∙ k)
          ]
    ]
