-- ===== src/Api/Auth.antt =====
-- internal/api/auth.go: accounts, sessions and password resets.
-- The sleep of half a second after a wrong login takes no time here.
pub mod Password
pub mod Sessions
pub mod Rotation
pub mod Reset
pub mod Forgot
use Prim.Native.Char.{Char, code}
use Prim.Native.String.{len}
use web3_blitz.Base.{
  ℕ, ◌+◌, Bool, true, false, not, ◌&&◌, ◌||◌, Option, none, some, String, str_eq, ltb, leb,
  if◌then◌else◌,
}
use web3_blitz.Code.{
  ErrorCode, invalid_arg, internal, user_not_found, user_password_wrong, user_refresh_token_invalid,
}
use web3_blitz.Db.Models.{Tables, User, RefreshToken, PasswordResetToken}
use web3_blitz.Db.Users.{create_user, get_user_by_email, get_user_by_id, update_user_password}
use web3_blitz.Db.Tokens.{
  create_refresh_token, get_refresh_token, revoke_refresh_token, revoke_all_user_refresh_tokens,
  create_password_reset_token, get_password_reset_token, mark_password_reset_token_used,
}
use web3_blitz.Effects.{
  World, Action, ok, ◌>>=◌, ◌>>◌, pure, at_now, fail_if, or_fail, is_down, after_query, try_read,
  try_write, ignore_write,
}
use web3_blitz.Api.Request.{Method, Request, need_method, need_body, need_claims}

-- What bcrypt, the JWT library, crypto/rand and the mail server answer in one request.
pub record AuthEnv : Type 0 where
  pub hash_password : String → Option String
  pub check_password : String → String → Bool
  -- the token for a user, a name and a time
  pub generate_token : ℕ → String → ℕ → Option String
  -- 32 random bytes in hexadecimal
  pub random_token : Option String
  pub send_reset_email : String → String → Bool

pub record Credentials : Type 0 where
  pub email : String
  pub password : String

-- A result that the handler answers with an error when it is missing.
abbrev pub need : {A : Type 0} → Option A → ErrorCode → Action A
need o c w = (or_fail o c, w)

abbrev is_letter : Char → Bool
is_letter c = leb b'a' (code c) && leb (code c) b'z' || leb b'A' (code c) && leb (code c) b'Z'

abbrev pub is_digit : Char → Bool
is_digit c = leb b'0' (code c) && leb (code c) b'9'

-- The loop of `hasLetterAndDigit`, with its two flags.
unfoldable pub scan_password : Bool → Bool → String → Bool
scan_password letter digit String.[] = letter && digit
scan_password letter digit (String.◌∷◌ c s) =
    scan_password (is_letter c || letter) (is_digit c || digit) s

unfoldable pub has_letter_and_digit : String → Bool
has_letter_and_digit s = scan_password false false s

unfoldable pub register : AuthEnv → Request Credentials → Action User
register env r = do
  need_method Method.post r
  b ← need_body r
  fail_if (str_eq b.email "" || str_eq b.password "") invalid_arg
  fail_if (ltb (len b.password) 8) invalid_arg
  fail_if (not (has_letter_and_digit b.password)) invalid_arg
  hashed ← need (env.hash_password b.password) internal
  try_write internal (create_user b.email b.email hashed)

abbrev pub refresh_token_expiry : ℕ
refresh_token_expiry = 604800

-- The pair of tokens that a login or a refresh answers with.
pub record Session : Type 0 where
  pub user : User
  pub access_token : String
  pub refresh_token : String

-- The end of `Login` and the middle of `Refresh`: an access token, and a new row for a refresh token.
unfoldable pub open_session : AuthEnv → User → Action Session
open_session env u = do
  access ← at_now (λ now. need (env.generate_token u.id u.username now) internal)
  token ← need env.random_token internal
  at_now (λ now. try_write internal (create_refresh_token u.id token (now + refresh_token_expiry)))
  pure (record { user = u; access_token = access; refresh_token = token })

unfoldable pub login : AuthEnv → Request Credentials → Action Session
login env r = do
  need_method Method.post r
  b ← need_body r
  fail_if (str_eq b.email "" || str_eq b.password "") invalid_arg
  u ← try_read user_password_wrong (get_user_by_email b.email)
  fail_if (not (env.check_password b.password u.password)) user_password_wrong
  open_session env u

-- A refresh that has found its token's row and user.
pub record Renewal : Type 0 where
  pub token : String
  pub row : RefreshToken
  pub user : User

unfoldable pub find_session : Request String → Action Renewal
find_session r = do
  need_method Method.post r
  token ← need_body r
  fail_if (str_eq token "") invalid_arg
  rt ← at_now (λ now. try_read user_refresh_token_invalid (get_refresh_token now token))
  u ← try_read user_not_found (get_user_by_id rt.user_id)
  pure (record { token = token; row = rt; user = u })

unfoldable pub renew : AuthEnv → Renewal → Action Session
renew env x = do s ← open_session env x.user; ignore_write (revoke_refresh_token x.token); pure s

-- `Refresh`; the body is the refresh token.
unfoldable pub refresh : AuthEnv → Request String → Action Session
refresh env r = do x ← find_session r; renew env x

unfoldable logout : Request String → Action (Unit {0})
logout r = do
  need_method Method.post r
  token ← need_body r
  fail_if (str_eq token "") invalid_arg
  ignore_write (revoke_refresh_token token)

unfoldable get_me : {B : Type 0} → Request B → Action User
get_me r = do
  need_method Method.get r
  claims ← need_claims r
  try_read user_not_found (get_user_by_id claims.user_id)

-- A query whose error is answered as if there were no row.
unfoldable pub read_maybe : {A : Type 0} → (Tables → Option A) → Action (Option A)
read_maybe q w = (
  ok (if is_down w.outages then none else q w.tables),
  record w { outages = after_query w.outages },
)

-- `ForgotPassword` for an address that has an account.
unfoldable pub send_reset : AuthEnv → User → Action (Unit {0})
send_reset env u = do
  token ← need env.random_token internal
  at_now (λ now. try_write internal (create_password_reset_token u.id token (now + 1800)))
  fail_if (not (env.send_reset_email u.email token)) internal

abbrev send_reset_to : AuthEnv → Option User → Action (Unit {0})
send_reset_to env none = pure tt
send_reset_to env (some u) = send_reset env u

-- `ForgotPassword`; the body is the address.
unfoldable pub forgot_password : AuthEnv → Request String → Action (Unit {0})
forgot_password env r = do
  need_method Method.post r
  email ← need_body r
  fail_if (str_eq email "") invalid_arg
  u ← read_maybe (get_user_by_email email)
  send_reset_to env u

pub record ResetBody : Type 0 where
  pub token : String
  pub password : String

-- A reset that has found its token's row and hashed the new password.
pub record ResetGrant : Type 0 where
  pub token : String
  pub row : PasswordResetToken
  pub hashed : String

unfoldable pub grant_reset : AuthEnv → Request ResetBody → Action ResetGrant
grant_reset env r = do
  need_method Method.post r
  b ← need_body r
  fail_if (str_eq b.token "" || str_eq b.password "") invalid_arg
  fail_if (ltb (len b.password) 8 || not (has_letter_and_digit b.password)) invalid_arg
  rt ← at_now (λ now. try_read invalid_arg (get_password_reset_token now b.token))
  hashed ← need (env.hash_password b.password) internal
  pure (record { token = b.token; row = rt; hashed = hashed })

-- The three updates, of which the first may end the handler.
unfoldable pub write_reset : ResetGrant → Action (Unit {0})
write_reset g = do
  try_write internal (update_user_password g.hashed g.row.user_id)
  ignore_write (mark_password_reset_token_used g.token)
  ignore_write (revoke_all_user_refresh_tokens g.row.user_id)

unfoldable pub reset_password : AuthEnv → Request ResetBody → Action (Unit {0})
reset_password env r = do g ← grant_reset env r; write_reset g
