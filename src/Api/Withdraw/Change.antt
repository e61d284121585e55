-- ===== src/Api/Withdraw/Change.antt =====
-- What a withdrawal request changes: at most the new row, and the transactions it adds.
use mathlib.Core.List.{append-nil}
use web3_blitz.Base.{
  ℕ, ◌≡◌, ◌⊎◌, inl, inr, refl, Option, none, some, List, [], ◌∷◌, ◌++◌, arith, ◌∙◌, ap, sym,
  Option-cases, Bool-cases,
}
use web3_blitz.Db.Models.{Tables, Withdrawal}
use web3_blitz.Db.Withdrawals.{create_withdrawal}
use web3_blitz.Effects.{World, Sent, ok, try_write, is_down, after_query, withdraw_submitted}
use web3_blitz.Money.{sprintf8}
use web3_blitz.Wallet.Withdraw.{WithdrawResult}
use web3_blitz.Api.Request.{Request}
use web3_blitz.Api.Withdraw.{
  Env, WithdrawBody, WithdrawRequest, WithdrawReply, broadcast_withdrawal, auto_reply, after_insert,
  submit, withdraw,
}
use web3_blitz.Api.Withdraw.Submit.{inserted, after_checks, after_checks-IsQuiet}
use web3_blitz.Api.Withdraw.Funds.{IsAccepted, locked, withdraw-IsAccepted}
use web3_blitz.Api.Withdraw.Broadcast.{marked_failed, broadcast-some, broadcast-none}

auto_reply-tables :
    (q : WithdrawRequest) (id : ℕ) (x : Option WithdrawResult × World)
    → (auto_reply q id x).1.tables ≡ x.1.tables
unfolding auto_reply
auto_reply-tables q id (none, w) = refl
auto_reply-tables q id (some res, w) = refl

broadcast-tables :
    (env : Env) (id : ℕ) (q : WithdrawRequest) (w : World)
    → let u = (broadcast_withdrawal env id q.chain q.to_address q.amount w).1.tables in
      (u ≡ w.tables) ⊎ (u ≡ marked_failed id w.tables)
broadcast-tables env id q w =
    elim (Option-cases (broadcast_withdrawal env id q.chain q.to_address q.amount w).0) [
      | inl e ↦
          let (_, marked) = broadcast-none env id q.chain q.to_address q.amount w e in
          elim marked [ inl (_, m) ↦ inr m | inr (_, m) ↦ inl m ]
      | inr (res, e) ↦
          let (_, _, _, after) = broadcast-some env id q.chain q.to_address q.amount w e in
          inl (ap (λ (v : World). v.tables) after)
    ]

-- The state in which the row that was just inserted is broadcast.
abbrev after_submitted : WithdrawRequest → World → World
after_submitted q w = record w {
  outages = after_query w.outages;
  tables = inserted w.now q w.tables;
  log = w.log ++ withdraw_submitted q.user q.chain (sprintf8 q.amount) q.to_address ∷ [];
}

-- An answered submission has inserted its row, and at most marked it as failed.
submit-tables :
    (env : Env) (q : WithdrawRequest) (w : World) {rep : WithdrawReply}
    → (submit env q w).0 ≡ ok rep
    → ((submit env q w).1.tables ≡ inserted w.now q w.tables)
      ⊎ ((submit env q w).1.tables
          ≡ marked_failed w.tables.withdrawal_seq (inserted w.now q w.tables))
unfolding submit try_write create_withdrawal after_insert
submit-tables env q w {rep} h = elim (Bool-cases (is_down w.outages)) [
  | inl e ↦ absurd (ground arith)
  | inr e ↦ rw e (
      ground (
        arith,
        auto_reply-tables q w.tables.withdrawal_seq (
            broadcast_withdrawal env w.tables.withdrawal_seq q.chain q.to_address q.amount
              (after_submitted q w)),
        broadcast-tables env w.tables.withdrawal_seq q (after_submitted q w),
      ))
]

pub withdraw-tables :
    (env : Env) (r : Request WithdrawBody) (w : World) {rep : WithdrawReply}
    → (withdraw env r w).0 ≡ ok rep
    → (q : WithdrawRequest) × IsAccepted env r w q
      × (((withdraw env r w).1.tables ≡ inserted w.now q w.tables)
          ⊎ ((withdraw env r w).1.tables
              ≡ marked_failed w.tables.withdrawal_seq (inserted w.now q w.tables)))
withdraw-tables env r w h =
    let (q, accepted, ran, tables, sent) = withdraw-IsAccepted env r w h in
    let v = after_checks q (locked q w) in
    let (same, now, _, _, _) = after_checks-IsQuiet q (locked q w) in
    let moved : inserted v.now q v.tables ≡ inserted w.now q w.tables =
      ap (λ (n : ℕ). inserted n q v.tables) now ∙ ap (inserted w.now q) same in
    (
      q,
      accepted,
      elim (submit-tables env q v ran) [
        | inl e ↦ inl (tables ∙ e ∙ moved)
        | inr e ↦ inr (
            tables
            ∙ e
            ∙ ap (λ (t : Tables). marked_failed t.withdrawal_seq (inserted v.now q v.tables)) same
            ∙ ap (marked_failed w.tables.withdrawal_seq) moved)
      ],
    )

auto_reply-sent :
    (q : WithdrawRequest) (id : ℕ) (x : Option WithdrawResult × World)
    → (auto_reply q id x).1.sent ≡ x.1.sent
unfolding auto_reply
auto_reply-sent q id (none, w) = refl
auto_reply-sent q id (some res, w) = refl

-- Transactions are only ever added.
abbrev pub Extends : List Sent → List Sent → Type 0
Extends l l' = (r : List Sent) × (l' ≡ l ++ r)

broadcast-sent :
    (env : Env) (id : ℕ) (q : WithdrawRequest) (w : World)
    → Extends w.sent (broadcast_withdrawal env id q.chain q.to_address q.amount w).1.sent
broadcast-sent env id q w =
    elim (Option-cases (broadcast_withdrawal env id q.chain q.to_address q.amount w).0) [
      | inl e ↦
          let (kept, _) = broadcast-none env id q.chain q.to_address q.amount w e in
          elim kept [ inl k ↦ ([], k ∙ sym (append-nil w.sent)) | inr (tx, _, k) ↦ (tx ∷ [], k) ]
      | inr (res, e) ↦
          let (tx, _, _, after) = broadcast-some env id q.chain q.to_address q.amount w e in
          (tx ∷ [], ap (λ (v : World). v.sent) after)
    ]

after_insert-sent :
    (env : Env) (q : WithdrawRequest) (row : Withdrawal) (w : World)
    → Extends w.sent (after_insert env q row w).1.sent
unfolding after_insert
after_insert-sent env q row w = elim (Bool-cases env.auto_approve) [
  | inr e ↦ ([], ground (arith, append-nil w.sent))
  | inl e ↦
      let x = broadcast_withdrawal env row.id q.chain q.to_address q.amount w in
      let (r, s) = broadcast-sent env row.id q w in
      (r, ground (arith, auto_reply-sent q row.id x, s))
]

submit-sent : (env : Env) (q : WithdrawRequest) (w : World) → Extends w.sent (submit env q w).1.sent
unfolding submit try_write create_withdrawal
submit-sent env q w = elim (Bool-cases (is_down w.outages)) [
  | inl e ↦ ([], rw e (sym (append-nil w.sent)))
  | inr e ↦ rw e (after_insert-sent env q _ _)
]

pub withdraw-sent :
    (env : Env) (r : Request WithdrawBody) (w : World) {rep : WithdrawReply}
    → (withdraw env r w).0 ≡ ok rep
    → Extends w.sent (withdraw env r w).1.sent
withdraw-sent env r w h =
    let (q, accepted, ran, tables, sent) = withdraw-IsAccepted env r w h in
    let v = after_checks q (locked q w) in
    let (_, _, _, same, _) = after_checks-IsQuiet q (locked q w) in
    let (l, s) = submit-sent env q v in (l, sent ∙ s ∙ ap (λ (k : List Sent). k ++ l) same)
