-- ===== src/Api/Withdraw/Funds.antt =====
-- What an answered `Withdraw` has established and written, and what a refused one leaves.
use web3_blitz.Base.{ℕ, ◌≡◌, false, arith, ◌∷◌, ◌∙◌, ap, inl, inr, has_row}
use web3_blitz.Code.{ErrorCode}
use web3_blitz.Db.Models.{Tables}
use web3_blitz.Effects.{World, Reply, ok, fail, Action, LockKey}
use web3_blitz.Effects.Laws.{continue-ok, Reply-cases}
use web3_blitz.Api.Request.{Request}
use web3_blitz.Api.Withdraw.{
  Env, WithdrawBody, WithdrawRequest, WithdrawReply, pending_review, checked, key_eq, lock_key,
  acquire, release, submit, withdraw_locked, with_lock, withdraw,
}
use web3_blitz.Api.Withdraw.Checks.{
  IsChecked, IsFunded, IsWithinLimit, checked-eq_self, checked-IsChecked,
}
use web3_blitz.Api.Withdraw.Submit.{
  after_checks, after_checks-IsQuiet, inserted, withdraw_locked-ok, submit_manual,
  withdraw_locked-fail,
}

-- The state while the lock is held.
abbrev pub locked : WithdrawRequest → World → World
locked q w = record w { held = lock_key q ∷ w.held }

-- What an answer means: the request passed the checks above the lock, nobody held the lock, the
-- confirmed deposits and the daily limit cover it in the state that the handler found.
pub record IsAccepted (env : Env) (r : Request WithdrawBody) (w : World) (q : WithdrawRequest)
    : Type 0 where
  pub passed : (checked env r w).0 ≡ ok q
  pub valid : IsChecked env r q
  pub free : has_row (key_eq (lock_key q)) w.held ≡ false
  pub funded : IsFunded q w.tables
  pub limited : IsWithinLimit q w.now w.tables

with_lock-ok :
    {A : Type 0} (env : Env) (k : LockKey) (m : Action A) (w : World) {a : A}
    → (with_lock env k m w).0 ≡ ok a
    → (has_row (key_eq k) w.held ≡ false)
      × ((m (record w { held = k ∷ w.held })).0 ≡ ok a)
      × ((with_lock env k m w).1.tables ≡ (m (record w { held = k ∷ w.held })).1.tables)
      × ((with_lock env k m w).1.sent ≡ (m (record w { held = k ∷ w.held })).1.sent)
unfolding with_lock acquire release
with_lock-ok env k m w h = ground arith

with_lock-fail :
    {A : Type 0} (env : Env) (k : LockKey) (m : Action A) (w : World) {c : ErrorCode}
    → ((d : ErrorCode)
        → (m (record w { held = k ∷ w.held })).0 ≡ fail d
        → ((m (record w { held = k ∷ w.held })).1.tables ≡ w.tables)
          × ((m (record w { held = k ∷ w.held })).1.sent ≡ w.sent))
    → (with_lock env k m w).0 ≡ fail c
    → ((with_lock env k m w).1.tables ≡ w.tables) × ((with_lock env k m w).1.sent ≡ w.sent)
unfolding with_lock acquire release
with_lock-fail env k m w {c} keeps h = ground (arith, keeps c)

-- Once the checks above the lock are passed, the rest runs under the lock.
pub withdraw-checked :
    (env : Env) (r : Request WithdrawBody) (w : World) (q : WithdrawRequest)
    → (checked env r w).0 ≡ ok q
    → withdraw env r w ≡ with_lock env (lock_key q) (withdraw_locked env q) w
unfolding withdraw
withdraw-checked env r w q h = ground (arith, checked-eq_self env r w)

-- An answered call has passed the checks, and ran under the lock.
withdraw-ok :
    (env : Env) (r : Request WithdrawBody) (w : World) {rep : WithdrawReply}
    → (withdraw env r w).0 ≡ ok rep
    → (q : WithdrawRequest) × ((checked env r w).0 ≡ ok q)
      × (withdraw env r w ≡ with_lock env (lock_key q) (withdraw_locked env q) w)
unfolding withdraw
withdraw-ok env r w h =
    let (q, c, e) = continue-ok (checked env r w) _ h in
    (
      q,
      c,
      unfold withdraw in
          e ∙ ap (with_lock env (lock_key q) (withdraw_locked env q)) (checked-eq_self env r w),
    )

pub withdraw-IsAccepted :
    (env : Env) (r : Request WithdrawBody) (w : World) {rep : WithdrawReply}
    → (withdraw env r w).0 ≡ ok rep
    → (q : WithdrawRequest) × IsAccepted env r w q
      × (submit env q (after_checks q (locked q w))).0 ≡ ok rep
      × ((withdraw env r w).1.tables ≡ (submit env q (after_checks q (locked q w))).1.tables)
      × ((withdraw env r w).1.sent ≡ (submit env q (after_checks q (locked q w))).1.sent)
withdraw-IsAccepted env r w h =
    let (q, c, e) = withdraw-ok env r w h in
    let (free, ran, tables, sent) =
      with_lock-ok env (lock_key q) (withdraw_locked env q) w (rw (← e) h) in
    let (funded, limited, e') = withdraw_locked-ok env q (locked q w) ran in
    (
      q,
      record {
        passed = c;
        valid = checked-IsChecked env r w q c;
        free = free;
        funded = funded;
        limited = limited;
      },
      rw (← e') ran,
      ap (λ (x : Reply WithdrawReply × World). x.1.tables) e
          ∙ tables
          ∙ ap (λ (x : Reply WithdrawReply × World). x.1.tables) e',
      ap (λ (x : Reply WithdrawReply × World). x.1.sent) e
          ∙ sent
          ∙ ap (λ (x : Reply WithdrawReply × World). x.1.sent) e',
    )

-- With manual review, a withdrawal that is answered passed every check of the handler (method,
-- body, positive amount, claims, limit on one withdrawal, free lock, balance, daily limit) in the
-- state that it found; it has then appended exactly one pending row for the caller, with the
-- amount asked for to eight decimals, has broadcast nothing, and reports the row's id as pending.
pub withdraw_manual :
    (env : Env) (r : Request WithdrawBody) (w : World) {rep : WithdrawReply}
    → env.auto_approve ≡ false
    → (withdraw env r w).0 ≡ ok rep
    → (q : WithdrawRequest) × IsAccepted env r w q
      × ((withdraw env r w).1.tables ≡ inserted w.now q w.tables)
      × ((withdraw env r w).1.sent ≡ w.sent)
      × (rep.status ≡ pending_review)
      × (rep.id ≡ w.tables.withdrawal_seq)
withdraw_manual env r w manual h =
    let (q, accepted, ran, tables, sent) = withdraw-IsAccepted env r w h in
    let v = after_checks q (locked q w) in
    let (same, now, _, sent', _) = after_checks-IsQuiet q (locked q w) in
    let (t, s, status, id) = submit_manual env q v manual ran in
    (
      q,
      accepted,
      tables ∙ t ∙ ap (λ (n : ℕ). inserted n q v.tables) now ∙ ap (inserted w.now q) same,
      sent ∙ s ∙ sent',
      status,
      id ∙ ap (λ (t : Tables). t.withdrawal_seq) same,
    )

-- A withdrawal that is refused, for whatever reason and in either mode, has changed no table and
-- broadcast nothing.
pub withdraw-fail :
    (env : Env) (r : Request WithdrawBody) (w : World) {c : ErrorCode}
    → (withdraw env r w).0 ≡ fail c
    → ((withdraw env r w).1.tables ≡ w.tables) × ((withdraw env r w).1.sent ≡ w.sent)
unfolding withdraw
withdraw-fail env r w {c} h = elim (Reply-cases (checked env r w).0) [
  | inl (q, e) ↦ rw (withdraw-checked env r w q e) (
      with_lock-fail env (lock_key q) (withdraw_locked env q) w {c = c}
        (λ d. withdraw_locked-fail env q (locked q w) {c = d})
        (rw (withdraw-checked env r w q e) at h))
  | inr (d, e) ↦ ground (arith, checked-eq_self env r w)
]
