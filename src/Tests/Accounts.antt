-- ===== src/Tests/Accounts.antt =====
-- Accounts, sessions and resets at concrete requests.
use web3_blitz.Base.{
  ◌≡◌, ◌<◌, refl, true, false, some, none, [], ◌∷◌, ◌++◌, ◌+◌, sym, String, str_eq, has_row,
  find_row,
}
use mathlib.Core.List.{append-nil}
use web3_blitz.Code.{internal, invalid_arg}
use web3_blitz.Db.Models.{User, RefreshToken}
use web3_blitz.Db.Users.{create_user, get_user_by_email, get_user_by_id}
use web3_blitz.Db.Tokens.{
  create_refresh_token, get_refresh_token, get_password_reset_token, create_password_reset_token,
}
use web3_blitz.Effects.{World, ok, fail, try_read, try_write, ignore_write}
use web3_blitz.Api.Request.{Method, Request}
use web3_blitz.Api.Auth.{
  AuthEnv, Credentials, Session, ResetBody, scan_password, has_letter_and_digit, register, login,
  open_session, find_session, renew, refresh, refresh_token_expiry, read_maybe, send_reset,
  forgot_password, grant_reset, write_reset, reset_password,
}
use web3_blitz.Api.Auth.Sessions.{opened, session_row, login-ok}
use web3_blitz.Api.Auth.Rotation.{refresh_once}
use web3_blitz.Api.Auth.Forgot.{forgot_password-fail}
use web3_blitz.Tests.Data.{world, tables}

abbrev env : AuthEnv
env = record {
  hash_password = λ p. some "new-hash";
  check_password = λ p h. str_eq p "secret12";
  generate_token = λ id name now. some "access";
  random_token = some "token-2";
  send_reset_email = λ a t. false;
}

abbrev post : {B : Type 0} → B → Request B
post b = record { method = Method.post; claims = none; body = some b }

abbrev bob : Credentials
bob = record { email = "bob@x"; password = "secret12" }

abbrev new_user : User
new_user = record { id = 8; level = 0; username = "bob@x"; email = "bob@x"; password = "new-hash" }

register_runs : (register env (post bob) world).0 ≡ ok new_user
unfolding register has_letter_and_digit scan_password try_write create_user has_row
register_runs = refl

abbrev ann : Credentials
ann = record { email = "ann@x"; password = "secret12" }

abbrev ann_row : User
ann_row = record { id = 7; level = 0; username = "ann"; email = "ann@x"; password = "hash" }

abbrev session : Session
session = record { user = ann_row; access_token = "access"; refresh_token = "token-2" }

login_runs : (login env (post ann) world).0 ≡ ok session
unfolding login open_session try_read try_write get_user_by_email create_refresh_token has_row
    find_row
login_runs = refl

login-ok_example :
    (b : Credentials) × (Method.post ≡ Method.post)
    × (some ann ≡ some b)
    × (find_row (λ u. str_eq u.email b.email) world.tables.users ≡ some ann_row)
    × (env.check_password b.password "hash" ≡ true)
    × (has_row (λ t. str_eq t.token "token-2") world.tables.refresh_tokens ≡ false)
    × ((login env (post ann) world).1.tables ≡ opened 1000 session world.tables)
login-ok_example = login-ok env (post ann) world login_runs

bob_unknown :
    (u : User)
    → get_user_by_email "bob@x" world.tables ≡ some u
    → env.check_password "secret12" u.password ≡ false
unfolding get_user_by_email find_row
bob_unknown u e = cc

-- A session is open.
abbrev logged_in : World
logged_in = record world {
  tables = record tables {
    refresh_tokens =
        record { id = 1; user_id = 7; token = "token-1"; expires_at = 5000; revoked = false } ∷ [];
    refresh_seq = 2;
  };
}

refresh_runs : (refresh env (post "token-1") logged_in).0 ≡ ok session
unfolding refresh find_session renew open_session try_read try_write ignore_write get_refresh_token
    get_user_by_id create_refresh_token has_row find_row
refresh_runs = refl

-- The state that the refresh left, later.
abbrev refreshed : World
refreshed = record (refresh env (post "token-1") logged_in).1 { now = 2000 }

refreshed_rows :
    refreshed.tables.refresh_tokens
    ≡ (refresh env (post "token-1") logged_in).1.tables.refresh_tokens ++ []
refreshed_rows = sym (append-nil refreshed.tables.refresh_tokens)

none_later : has_row (λ (t : RefreshToken). str_eq t.token "token-1") [] ≡ false
unfolding has_row
none_later = refl

refresh_once_example :
    (row : RefreshToken) × (get_refresh_token 1000 "token-1" logged_in.tables ≡ some row)
    × (get_user_by_id row.user_id logged_in.tables ≡ some session.user)
    × (session.user.id ≡ row.user_id)
    × ((s' : Session) → (refresh env (post "token-1") refreshed).0 ≡ ok s' → ⊥)
    × (2000 < 1000 + refresh_token_expiry
        → get_refresh_token 2000 "token-2" refreshed.tables ≡ some (session_row 1000 2 session))
refresh_once_example =
    refresh_once env env (post "token-1") logged_in refreshed "token-1" [] refl refresh_runs refl
      refreshed_rows none_later

-- A reset was asked for.
abbrev resetting : World
resetting = record logged_in {
  tables = record logged_in.tables {
    reset_tokens =
        record { id = 1; user_id = 7; token = "reset"; expires_at = 2000; used = false } ∷ [];
  };
}

abbrev reset : ResetBody
reset = record { token = "reset"; password = "secret34" }

reset_refused : (reset_password env (post reset) world).0 ≡ fail invalid_arg
unfolding reset_password grant_reset write_reset has_letter_and_digit scan_password try_read
    get_password_reset_token find_row
reset_refused = refl

no_bob : get_user_by_email "bob@x" world.tables ≡ none
unfolding get_user_by_email find_row
no_bob = refl

mail_fails : (forgot_password env (post "ann@x") world).0 ≡ fail internal
unfolding forgot_password read_maybe send_reset try_write create_password_reset_token
    get_user_by_email has_row find_row
mail_fails = refl

forgot_password-fail_example :
    (email : String) × (u : User) × (some "ann@x" ≡ some email)
    × (get_user_by_email email world.tables ≡ some u)
forgot_password-fail_example = forgot_password-fail env (post "ann@x") world mail_fails
