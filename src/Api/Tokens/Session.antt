-- ===== src/Api/Tokens/Session.antt =====
-- How long a token opens a session, and who else gets in.
use web3_blitz.Base.{
  ℕ, ◌+◌, ◌<◌, ◌≡◌, ◌≢◌, refl, true, Bool, Option, some, String, ltb, arith, if◌then◌else◌,
  Option-cases, Bool-cases, inl, inr,
}
use web3_blitz.Effects.{World, Reply, Action}
use web3_blitz.Api.Request.{Claims}
use web3_blitz.Api.Access.{stopped, Handler, replied, split_n, bearer_part, jwt_middleware}
use web3_blitz.Api.Mux.{Operation, Limiter, Route, route_at, dispatch}
use web3_blitz.Api.Mux.Guards.{
  Need, anyone, signed_in, permission, needs, IsSigned, IsAllowed, dispatch_lem,
}
use web3_blitz.Api.Tokens.{
  SigningMethod, hs256, is_hmac, TokenClaims, Jwt, token_expiry, generate_token, parse_token, parse,
}

-- A token that the service has signed with the secret, and whose time has not come.
record IsValid (jwt : Jwt) (now : ℕ) (secret token : String) (c : TokenClaims) : Type 0 where
  pub method : SigningMethod
  pub read : jwt.parse_unverified token ≡ some (method, c)
  hmac : is_hmac method ≡ true
  pub signature : jwt.verify token secret ≡ true
  early : now < c.expires_at

module _ (jwt : Jwt) where
  parse_token-IsValid :
      (now : ℕ) (token secret : String) {c : TokenClaims}
      → parse_token jwt now token secret ≡ some c
      → IsValid jwt now secret token c
  unfolding parse_token
  parse_token-IsValid now token secret {c} h = elim (Option-cases (jwt.parse_unverified token)) [
    | inl e ↦ cc (rw e at h)
    | inr ((method, d), e) ↦
        let h' = rw e at h in
        let same : d ≡ c = ground arith in
        record {
          method = method;
          read = rw same at e;
          hmac = ground arith;
          signature = ground arith;
          early = ground arith;
        }
  ]

  -- A token that is given out at one time and comes back in a header at a later one gets to the
  -- handler with the claims of its user, if less than 24 hours have passed; otherwise the request is
  -- stopped with 401. Of the library it is assumed that it reads what it has signed, and that its
  -- signature verifies.
  pub generate_token-jwt_middleware :
      {A : Type 0} (now later user_id : ℕ) (username secret token header : String)
      (next : Handler A) (w : World)
      → ((c : TokenClaims) (s t : String)
          → jwt.signed_string hs256 c s ≡ some t
          → (jwt.parse_unverified t ≡ some (hs256, c)) × (jwt.verify t s ≡ true))
      → generate_token jwt now user_id username secret ≡ some token
      → split_n header ≡ some ("Bearer", token)
      → jwt_middleware (parse jwt later secret) header next w ≡ (
          if ltb later (now + token_expiry)
          then next (some (record { user_id = user_id; username = username })) w
          else (stopped 401, w))
  unfolding generate_token parse_token jwt_middleware
  generate_token-jwt_middleware now later user_id username secret token header next w reads given
        sent =
      let (read, verified) = reads _ secret token given in
      rw (sent, read, verified, jwt_middleware, parse_token)
        (elim (Bool-cases (ltb later (now + token_expiry))) [
          | inl e ↦ rw e refl
          | inr e ↦ rw e refl
        ])

  IsSigned-IsValid :
      (later : ℕ) (secret header : String) {c : Claims}
      → IsSigned (parse jwt later secret) header c
      → (token : String) × (d : TokenClaims) × (bearer_part (split_n header) ≡ some token)
        × IsValid jwt later secret token d
        × (c.user_id ≡ d.user_id)
  IsSigned-IsValid later secret header {c} (token, bears, parsed) =
      elim (Option-cases (parse_token jwt later token secret)) [
        | inl e ↦ cc (rw e at parsed)
        | inr (d, e) ↦
            let same : c.user_id ≡ d.user_id = cc (rw e at parsed) in
            (token, d, bears, parse_token-IsValid later token secret e, same)
      ]

  -- A handler that not everyone may use answers only a request whose header bears a valid token: one
  -- with an HMAC method, signed with the secret of the service, and not expired.
  dispatch-IsValid :
      {A : Type 0} (later : ℕ) (secret header path : String) (allow : Limiter → Bool)
      (h : Operation → Option Claims → Action A) (w : World) {route : Route} {r : Reply A}
      → route_at path ≡ some route
      → needs route.operation ≢ anyone
      → (dispatch (parse jwt later secret) header allow h route w).0 ≡ replied r
      → (token : String) × (d : TokenClaims) × IsValid jwt later secret token d
  dispatch-IsValid later secret header path allow h w {route} found guarded ran =
      of_need (needs route.operation) guarded
        (dispatch_lem (parse jwt later secret) header allow h path w found ran)
    where
      valid :
          {c : Claims}
          → IsSigned (parse jwt later secret) header c
          → (token : String) × (d : TokenClaims) × IsValid jwt later secret token d
      valid signed =
          let (token, d, _, ok', _) = IsSigned-IsValid later secret header signed in (token, d, ok')

      of_need :
          (n : Need)
          → n ≢ anyone
          → IsAllowed (parse jwt later secret) header n w
          → (token : String) × (d : TokenClaims) × IsValid jwt later secret token d
      of_need anyone g k = absurd (g refl)
      of_need signed_in g (c, signed) = valid signed
      of_need (permission p) g (c, signed, _) = valid signed
