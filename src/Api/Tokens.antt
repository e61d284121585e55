-- ===== src/Api/Tokens.antt =====
-- internal/auth/auth.go: the tokens that a session carries. A time is a number of seconds, to which the
-- library rounds the times in a token down.
pub mod Session
use web3_blitz.Base.{
  ℕ, ◌+◌, Bool, true, false, ◌&&◌, Option, none, some, String, ltb, if◌then◌else◌,
}
use web3_blitz.Api.Request.{Claims}

-- The methods of signing, of which the first three are `*jwt.SigningMethodHMAC`.
pub data SigningMethod : Type 0 where
  hs256 hs384 hs512 other_method : SigningMethod

abbrev is_hmac : SigningMethod → Bool
is_hmac other_method = false
is_hmac _ = true

-- `Claims` with the two registered ones that are set.
pub record TokenClaims : Type 0 where
  pub user_id : ℕ
  pub username : String
  pub expires_at : ℕ
  pub issued_at : ℕ

-- golang-jwt, which is not code of the repository: signing, reading a token without trusting it, and
-- whether its signature is the one of its method and the secret.
pub record Jwt : Type 0 where
  pub signed_string : SigningMethod → TokenClaims → String → Option String
  pub parse_unverified : String → Option (SigningMethod × TokenClaims)
  pub verify : String → String → Bool

abbrev token_expiry : ℕ
token_expiry = 86400

abbrev to_claims : TokenClaims → Claims
to_claims c = record { user_id = c.user_id; username = c.username }

module _ (jwt : Jwt) where
  -- `GenerateToken`.
  unfoldable pub generate_token : ℕ → ℕ → String → String → Option String
  generate_token now user_id username secret =
      jwt.signed_string hs256
        (record {
          user_id = user_id;
          username = username;
          expires_at = now + token_expiry;
          issued_at = now;
        })
        secret

  abbrev validated : ℕ → String → String → Option (SigningMethod × TokenClaims) → Option TokenClaims
  validated now token secret none = none
  validated now token secret (some (method, c)) =
      if is_hmac method && jwt.verify token secret && ltb now c.expires_at then some c else none

  -- `ParseToken`: `ParseWithClaims` asks for the key, which is refused for another method, checks the
  -- signature and then the expiry.
  unfoldable pub parse_token : ℕ → String → String → Option TokenClaims
  parse_token now token secret = validated now token secret (jwt.parse_unverified token)

  abbrev claims_of : Option TokenClaims → Option Claims
  claims_of none = none
  claims_of (some c) = some (to_claims c)

  -- What the middleware calls.
  abbrev pub parse : ℕ → String → String → Option Claims
  parse now secret token = claims_of (parse_token now token secret)
