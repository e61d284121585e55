-- ===== src/Tests/Tokens.antt =====
-- A token of one user with a stand-in for the JWT library, which signs for that user only.
use web3_blitz.Base.{
  ◌+◌, ◌≡◌, refl, Bool, true, ◌&&◌, Option, none, some, String, ◌==◌, str_eq, eq_iff, ap, sym, ltb,
  arith, if◌then◌else◌,
}
use web3_blitz.Effects.{Action, ok}
use web3_blitz.Api.Request.{Claims}
use web3_blitz.Api.Access.{stopped, serve, split_n, jwt_middleware}
use web3_blitz.Api.Tokens.{hs256, TokenClaims, Jwt, generate_token, parse}
use web3_blitz.Api.Tokens.Session.{generate_token-jwt_middleware}
use web3_blitz.Tests.Data.{world, claims}

abbrev token_claims : TokenClaims
token_claims = record { user_id = 7; username = "ann"; expires_at = 87400; issued_at = 1000 }

abbrev is_ours : TokenClaims → Bool
is_ours c =
    c.user_id == 7 && str_eq c.username "ann" && c.expires_at == 87400 && c.issued_at == 1000

abbrev jwt : Jwt
jwt = record {
  signed_string = λ m c s. if is_ours c then some "abc" else none;
  parse_unverified = λ t. some (hs256, token_claims);
  verify = λ t s. true;
}

signs :
    (c : TokenClaims) (s t : String)
    → jwt.signed_string hs256 c s ≡ some t
    → (jwt.parse_unverified t ≡ some (hs256, c)) × (jwt.verify t s ≡ true)
signs c s t h =
    let user : c.user_id ≡ 7 = ground arith in
    let name : str_eq c.username "ann" ≡ true = ground arith in
    let end : c.expires_at ≡ 87400 = ground arith in
    let begin : c.issued_at ≡ 1000 = ground arith in
    let named = (eq_iff c.username "ann").0 name in
    let same : c ≡ token_claims = λ i. record {
      user_id = user i;
      username = named i;
      expires_at = end i;
      issued_at = begin i;
    } in
    (ap (λ (x : TokenClaims). some (hs256, x)) (sym same), refl)

abbrev answer : Option Claims → Action String
answer c w = (ok "done", w)

given : generate_token jwt 1000 7 "ann" "secret" ≡ some "abc"
unfolding generate_token
given = refl

sent : split_n "Bearer abc" ≡ some ("Bearer", "abc")
unfolding split_n
sent = refl

-- One second before the end.
generate_token-jwt_middleware_example :
    jwt_middleware (parse jwt 87399 "secret") "Bearer abc" (serve answer) world
    ≡ (if ltb 87399 (1000 + 86400) then serve answer (some claims) world else (stopped 401, world))
generate_token-jwt_middleware_example =
    generate_token-jwt_middleware jwt 1000 87399 7 "ann" "secret" "abc" "Bearer abc" (serve answer)
      world signs given sent
