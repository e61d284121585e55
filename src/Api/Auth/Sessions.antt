-- ===== src/Api/Auth/Sessions.antt =====
-- Logins, and the tokens that they make.
use web3_blitz.Base.{
  ℕ, ◌+◌, ◌≡◌, inl, inr, true, false, some, [], ◌∷◌, ◌++◌, str_eq, arith, has_row, find_row,
  Option-cases,
}
use web3_blitz.Code.{user_password_wrong}
use web3_blitz.Db.Models.{Tables, User, RefreshToken}
use web3_blitz.Db.Users.{get_user_by_email}
use web3_blitz.Db.Tokens.{create_refresh_token}
use web3_blitz.Effects.{World, ok, fail, try_read, try_write, after_query}
use web3_blitz.Api.Request.{Method, Request}
use web3_blitz.Api.Auth.{AuthEnv, Credentials, Session, refresh_token_expiry, open_session, login}

-- The row of a session's refresh token.
abbrev pub session_row : ℕ → ℕ → Session → RefreshToken
session_row now id s = record {
  id = id;
  user_id = s.user.id;
  token = s.refresh_token;
  expires_at = now + refresh_token_expiry;
  revoked = false;
}

-- The tables with the new row.
abbrev pub opened : ℕ → Session → Tables → Tables
opened now s t = record t {
  refresh_tokens = t.refresh_tokens ++ session_row now t.refresh_seq s ∷ [];
  refresh_seq = t.refresh_seq + 1;
}

-- What an opened session has made.
pub record IsOpened (env : AuthEnv) (u : User) (w w' : World) (s : Session) : Type 0 where
  pub user : s.user ≡ u
  pub access : env.generate_token u.id u.username w.now ≡ some s.access_token
  pub random : env.random_token ≡ some s.refresh_token
  pub new : has_row (λ r. str_eq r.token s.refresh_token) w.tables.refresh_tokens ≡ false
  pub written : w'.tables ≡ opened w.now s w.tables

pub open_session-ok :
    (env : AuthEnv) (u : User) (w : World) {s : Session}
    → (open_session env u w).0 ≡ ok s
    → IsOpened env u w (open_session env u w).1 s
unfolding open_session try_write create_refresh_token
open_session-ok env u w {s} h = record {
  user = ground arith;
  access = ground arith;
  random = ground arith;
  new = ground arith;
  written = ground arith;
}

pub open_session-up :
    (env : AuthEnv) (u : User) (w : World) → w.outages ≡ [] → (open_session env u w).1.outages ≡ []
unfolding open_session try_write
open_session-up env u w up = ground arith

-- A login that is answered found the user with the email, whose password matched, and has appended
-- one refresh token of that user, which no row had, valid for seven days; no other row changed.
pub login-ok :
    (env : AuthEnv) (r : Request Credentials) (w : World) {s : Session}
    → (login env r w).0 ≡ ok s
    → (b : Credentials) × (r.method ≡ Method.post)
      × (r.body ≡ some b)
      × (find_row (λ u. str_eq u.email b.email) w.tables.users ≡ some s.user)
      × (env.check_password b.password s.user.password ≡ true)
      × (has_row (λ t. str_eq t.token s.refresh_token) w.tables.refresh_tokens ≡ false)
      × ((login env r w).1.tables ≡ opened w.now s w.tables)
unfolding login try_read get_user_by_email
login-ok env r w {s} h = elim (Option-cases r.body) [
  | inl e ↦ absurd (ground arith)
  | inr (b, e) ↦ elim (Option-cases (find_row (λ u. str_eq u.email b.email) w.tables.users)) [
    | inl f ↦ absurd (ground arith)
    | inr (u, f) ↦
        let v = record w { outages = after_query w.outages } in
        let ran : (open_session env u v).0 ≡ ok s = ground arith in
        let o = open_session-ok env u v {s = s} ran in
        (
          b,
          ground arith,
          e,
          ground (arith, o.user),
          ground (arith, o.user),
          o.new,
          ground (arith, o.written),
        )
  ]
]

-- A wrong password and an unknown email cannot be told apart: in both cases a well-formed login is
-- answered with the same code and leaves the same state, whether or not the database answers.
login_wrong :
    (env : AuthEnv) (r : Request Credentials) (w : World) (b : Credentials)
    → r.method ≡ Method.post
    → r.body ≡ some b
    → str_eq b.email "" ≡ false
    → str_eq b.password "" ≡ false
    → ((u : User)
        → get_user_by_email b.email w.tables ≡ some u
        → env.check_password b.password u.password ≡ false)
    → login env r w ≡ (fail user_password_wrong, record w { outages = after_query w.outages })
unfolding login try_read
login_wrong env r w b m body e p wrong = elim (Option-cases (get_user_by_email b.email w.tables)) [
  | inl f ↦ simp (m, body, e, p) (ground arith)
  | inr (u, f) ↦ simp (m, body, e, p) (ground (arith, wrong u f))
]
