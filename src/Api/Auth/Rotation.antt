-- ===== src/Api/Auth/Rotation.antt =====
-- The rotation of refresh tokens: a refresh uses its token up and gives a new one.
use web3_blitz.Base.{
  ℕ, ◌+◌, ◌<◌, ◌≡◌, ◌⊎◌, inl, inr, refl, ◌∙◌, ap, subst, false, none, some, List, [], ◌∷◌, ◌++◌,
  String, str_eq, ◌==◌, ==-true, find_row-holds, eq_iff, eq_refl, arith, has_row, find_row,
  update_where, Bool-cases,
}
use web3_blitz.Db.Models.{Tables, RefreshToken}
use web3_blitz.Db.Users.{get_user_by_id}
use web3_blitz.Db.Tokens.{get_refresh_token, is_live, revoke, revoke_refresh_token}
use web3_blitz.Effects.{World, Reply, ok, try_read, ignore_write}
use web3_blitz.Effects.Laws.{continue-ok}
use web3_blitz.Api.Request.{Method, Request}
use web3_blitz.Api.Auth.Sessions.{session_row, opened, open_session-ok, open_session-up}
use web3_blitz.Api.Auth.{
  AuthEnv, Session, refresh_token_expiry, open_session, refresh, Renewal, find_session, renew,
}

-- A refresh token that is live is not a fresh one.
live_known :
    (now : ℕ) (old new : String) (l : List RefreshToken) {rt : RefreshToken}
    → find_row (is_live now old) l ≡ some rt
    → has_row (λ r. str_eq r.token new) l ≡ false
    → str_eq old new ≡ false
unfolding find_row has_row
live_known now old new [] f n = cc
live_known now old new (x ∷ l) {rt} f n = elim (Bool-cases (is_live now old x)) [
  | inr e ↦ live_known now old new l {rt = rt} (ground arith) (ground arith)
  | inl e ↦ ground (arith, eq_iff x.token old, eq_iff x.token new, eq_iff old new)
]

-- A token that is revoked is never live again.
revoked_dead :
    (now : ℕ) (token : String) (l : List RefreshToken)
    → find_row (is_live now token) (update_where (λ r. str_eq r.token token) revoke l) ≡ none
unfolding find_row update_where
revoked_dead now token [] = refl
revoked_dead now token (x ∷ l) = ground (arith, revoked_dead now token l)

-- Revoking one token leaves another that is appended.
appended_live :
    (now : ℕ) (old : String) (a : RefreshToken) (l : List RefreshToken)
    → has_row (λ r. str_eq r.token a.token) l ≡ false
    → str_eq a.token old ≡ false
    → a.revoked ≡ false
    → now < a.expires_at
    → find_row (is_live now a.token) (update_where (λ r. str_eq r.token old) revoke (l ++ a ∷ []))
      ≡ some a
unfolding find_row update_where has_row
appended_live now old a [] n d r t = ground (arith, eq_refl a.token)
appended_live now old a (x ∷ l) n d r t = ground (arith, appended_live now old a l)

-- What a refresh has found.
record IsFound (r : Request String) (w : World) (x : Renewal) : Type 0 where
  pub is_post : r.method ≡ Method.post
  pub has_body : r.body ≡ some x.token
  pub live : find_row (is_live w.now x.token) w.tables.refresh_tokens ≡ some x.row
  pub user : get_user_by_id x.row.user_id w.tables ≡ some x.user

find_session-quiet :
    (r : Request String) (w : World)
    → (find_session r w).1 ≡ record w { outages = (find_session r w).1.outages }
unfolding find_session try_read
find_session-quiet r w = ground arith

find_session-up :
    (r : Request String) (w : World) → w.outages ≡ [] → (find_session r w).1.outages ≡ []
unfolding find_session try_read
find_session-up r w up = ground arith

find_session-IsFound :
    (r : Request String) (w : World) (x : Renewal) → (find_session r w).0 ≡ ok x → IsFound r w x
unfolding find_session try_read get_refresh_token
find_session-IsFound r w x h = record {
  is_post = ground arith;
  has_body = ground arith;
  live = ground arith;
  user = ground arith;
}

renew-ok :
    (env : AuthEnv) (x : Renewal) (w : World) {s : Session}
    → (renew env x w).0 ≡ ok s
    → (s.user ≡ x.user)
      × (has_row (λ t. str_eq t.token s.refresh_token) w.tables.refresh_tokens ≡ false)
      × (((renew env x w).1.tables ≡ (revoke_refresh_token x.token (opened w.now s w.tables)).1)
          ⊎ ((renew env x w).1.tables ≡ opened w.now s w.tables))
      × (w.outages ≡ []
          → (renew env x w).1.tables ≡ (revoke_refresh_token x.token (opened w.now s w.tables)).1)
unfolding renew ignore_write
renew-ok env x w {s} h =
    let ran : (open_session env x.user w).0 ≡ ok s = ground arith in
    let o = open_session-ok env x.user w {s = s} ran in
    (
      o.user,
      o.new,
      ground (arith, o.written),
      λ up. ground (arith, o.written, open_session-up env x.user w),
    )

-- A refresh that is answered held a live token of an existing user, and has appended one token of
-- that user, valid for seven days; then the old token is revoked, unless that last query fails,
-- whose error is dropped. No other row changed.
refresh-ok :
    (env : AuthEnv) (r : Request String) (w : World) {s : Session}
    → (refresh env r w).0 ≡ ok s
    → (x : Renewal) × IsFound r w x
      × (s.user ≡ x.user)
      × (has_row (λ t. str_eq t.token s.refresh_token) w.tables.refresh_tokens ≡ false)
      × (((refresh env r w).1.tables ≡ (revoke_refresh_token x.token (opened w.now s w.tables)).1)
          ⊎ ((refresh env r w).1.tables ≡ opened w.now s w.tables))
      × (w.outages ≡ []
          → (refresh env r w).1.tables ≡ (revoke_refresh_token x.token (opened w.now s w.tables)).1)
unfolding refresh
refresh-ok env r w {s} h =
    let (x, found, e) = continue-ok (find_session r w) _ h in
    let v = (find_session r w).1 in
    let quiet = find_session-quiet r w in
    let (user, new, written, complete) = renew-ok env x v {s = s} (rw (← e) h) in
    let t : v.tables ≡ w.tables = ap (λ (y : World). y.tables) quiet in
    let now : v.now ≡ w.now = ap (λ (y : World). y.now) quiet in
    let same : opened v.now s v.tables ≡ opened w.now s w.tables = ground (arith, t, now) in
    let moved = ap (λ (y : Reply Session × World). y.1.tables) e in
    let revoked = ap (λ (t : Tables). (revoke_refresh_token x.token t).1) same in
    (
      x,
      find_session-IsFound r w x found,
      user,
      subst (λ (t : Tables). has_row (λ k. str_eq k.token s.refresh_token) t.refresh_tokens ≡ false)
          t new,
      elim written [ inl i ↦ inl (moved ∙ i ∙ revoked) | inr i ↦ inr (moved ∙ i ∙ same) ],
      λ up. moved ∙ complete (find_session-up r w up) ∙ revoked,
    )

-- A token that is in none of the rows that came later is not found among them either.
dead_append :
    (now : ℕ) (token : String) (l later : List RefreshToken)
    → find_row (is_live now token) l ≡ none
    → has_row (λ t. str_eq t.token token) later ≡ false
    → find_row (is_live now token) (l ++ later) ≡ none
unfolding find_row has_row
dead_append now token [] [] d n = refl
dead_append now token [] (x ∷ later) d n = ground (arith, dead_append now token [] later)
dead_append now token (x ∷ l) later d n = ground (arith, dead_append now token l later)

live_append :
    (now : ℕ) (token : String) (l later : List RefreshToken) {row : RefreshToken}
    → find_row (is_live now token) l ≡ some row
    → find_row (is_live now token) (l ++ later) ≡ some row
unfolding find_row
live_append now token [] later d = cc
live_append now token (x ∷ l) later {row} d =
    ground (arith, live_append now token l later {row = row})

-- With a database that answers, a refresh that is answered held a live token, whose row names an
-- existing user, and the session is that user's. It has used that token up and its new token
-- works: in every later state whose refresh tokens are those that the refresh left, followed by
-- any rows with other tokens, at whatever time, a refresh with the old token is not answered, and
-- until seven days after the refresh the new token is live, with the id of the same user.
pub refresh_once :
    (env env' : AuthEnv) (r : Request String) (w v : World) (old : String)
    (later : List RefreshToken) {s : Session}
    → w.outages ≡ []
    → (refresh env r w).0 ≡ ok s
    → r.body ≡ some old
    → v.tables.refresh_tokens ≡ (refresh env r w).1.tables.refresh_tokens ++ later
    → has_row (λ t. str_eq t.token old) later ≡ false
    → (row : RefreshToken) × (get_refresh_token w.now old w.tables ≡ some row)
      × (get_user_by_id row.user_id w.tables ≡ some s.user)
      × (s.user.id ≡ row.user_id)
      × ((s' : Session) → (refresh env' r v).0 ≡ ok s' → ⊥)
      × (v.now < w.now + refresh_token_expiry
          → get_refresh_token v.now s.refresh_token v.tables
            ≡ some (session_row w.now w.tables.refresh_seq s))
unfolding get_refresh_token get_user_by_id revoke_refresh_token
refresh_once env env' r w v old later {s} up h body after other =
    let (x, found, user, new, _, written) = refresh-ok env r w {s = s} h in
    let token = x.token in
    let row = session_row w.now w.tables.refresh_seq s in
    let n = v.now in
    let same : x.token ≡ old = ground (arith, found.has_body, body) in
    let rows = λ (t : Tables). t.refresh_tokens in
    let left =
      update_where (λ (r : RefreshToken). str_eq r.token token) revoke
        (w.tables.refresh_tokens ++ row ∷ []) in
    let kept : v.tables.refresh_tokens ≡ left ++ later =
      after ∙ ap (λ (t : Tables). t.refresh_tokens ++ later) (written up) in
    let dead : find_row (is_live n token) v.tables.refresh_tokens ≡ none =
      ap (find_row (is_live n token)) kept
      ∙ dead_append n token left later (revoked_dead n token (w.tables.refresh_tokens ++ row ∷ []))
          (rw same other) in
    let owner : get_user_by_id x.row.user_id w.tables ≡ some s.user = rw user found.user in
    (
      x.row,
      rw (← same) found.live,
      owner,
      ==-true s.user.id x.row.user_id
          (find_row-holds (λ u. u.id == x.row.user_id) s.user w.tables.users owner),
      λ s' h'.
          (let (y, found', _, _, _, _) = refresh-ok env' r v {s = s'} h' in
            ground (arith, found.has_body, found'.has_body, found'.live, dead)),
      λ t.
          (ap (find_row (is_live n s.refresh_token)) kept
            ∙ live_append n s.refresh_token left later (
                appended_live n token row w.tables.refresh_tokens new
                  (ground (
                    arith,
                    live_known w.now token s.refresh_token w.tables.refresh_tokens {rt = x.row}
                        found.live new,
                    eq_iff token s.refresh_token,
                    eq_iff s.refresh_token token,
                  ))
                  refl t)),
    )
