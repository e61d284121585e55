-- ===== src/Db/Tokens.antt =====
-- The queries of internal/db/queries.sql.go on the refresh_tokens and password_reset_tokens tables.
use web3_blitz.Base.{
  ℕ, ◌+◌, Bool, true, false, ◌&&◌, not, Option, none, some, [], ◌∷◌, ◌++◌, String, ◌==◌, ltb,
  str_eq, find_row, has_row, update_where, if◌then◌else◌,
}
use web3_blitz.Db.Models.{RefreshToken, PasswordResetToken, Tables}

-- UNIQUE(token); the foreign key refuses an unknown user. A refused INSERT still uses up an id.
unfoldable pub create_refresh_token : ℕ → String → ℕ → Tables → Option RefreshToken × Tables
create_refresh_token user token expires t =
    let row : RefreshToken = record {
      id = t.refresh_seq;
      user_id = user;
      token = token;
      expires_at = expires;
      revoked = false;
    } in
    let t' = record t { refresh_seq = t.refresh_seq + 1 } in
    if has_row (λ r. str_eq r.token token) t.refresh_tokens
    then (none, t')
    else if has_row (λ u. u.id == user) t.users
    then (some row, record t' { refresh_tokens = t.refresh_tokens ++ row ∷ [] })
    else (none, t')

-- token = $1 AND revoked = FALSE AND expires_at > NOW()
abbrev pub is_live : ℕ → String → RefreshToken → Bool
is_live now token r = str_eq r.token token && not r.revoked && ltb now r.expires_at

unfoldable pub get_refresh_token : ℕ → String → Tables → Option RefreshToken
get_refresh_token now token t = find_row (is_live now token) t.refresh_tokens

abbrev pub revoke : RefreshToken → RefreshToken
revoke r = record r { revoked = true }

unfoldable pub revoke_refresh_token : String → Tables → Option (Unit {0}) × Tables
revoke_refresh_token token t = (
  some tt,
  record t { refresh_tokens = update_where (λ r. str_eq r.token token) revoke t.refresh_tokens },
)

unfoldable pub revoke_all_user_refresh_tokens : ℕ → Tables → Option (Unit {0}) × Tables
revoke_all_user_refresh_tokens user t = (
  some tt,
  record t { refresh_tokens = update_where (λ r. r.user_id == user) revoke t.refresh_tokens },
)

unfoldable pub create_password_reset_token :
    ℕ → String → ℕ → Tables → Option PasswordResetToken × Tables
create_password_reset_token user token expires t =
    let row : PasswordResetToken = record {
      id = t.reset_seq;
      user_id = user;
      token = token;
      expires_at = expires;
      used = false;
    } in
    let t' = record t { reset_seq = t.reset_seq + 1 } in
    if has_row (λ r. str_eq r.token token) t.reset_tokens
    then (none, t')
    else if has_row (λ u. u.id == user) t.users
    then (some row, record t' { reset_tokens = t.reset_tokens ++ row ∷ [] })
    else (none, t')

-- token = $1 AND used = FALSE AND expires_at > NOW()
abbrev pub is_usable : ℕ → String → PasswordResetToken → Bool
is_usable now token r = str_eq r.token token && not r.used && ltb now r.expires_at

unfoldable pub get_password_reset_token : ℕ → String → Tables → Option PasswordResetToken
get_password_reset_token now token t = find_row (is_usable now token) t.reset_tokens

unfoldable pub mark_password_reset_token_used : String → Tables → Option (Unit {0}) × Tables
mark_password_reset_token_used token t = (
  some tt,
  record t {
    reset_tokens =
        update_where (λ r. str_eq r.token token) (λ r. record r { used = true }) t.reset_tokens;
  },
)
