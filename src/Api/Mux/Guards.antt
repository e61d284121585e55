-- ===== src/Api/Mux/Guards.antt =====
-- Who gets a reply from which handler.
use web3_blitz.Base.{
  ◌≡◌, ◌∙◌, ap, Bool, true, false, Option, none, some, List, [], ◌∷◌, String, find_row, All, arith,
  inl, inr, Bool-cases, Option-cases,
}
use web3_blitz.Effects.{World, Reply, ok, Action}
use web3_blitz.Effects.Laws.{Reply-cases}
use web3_blitz.Api.Request.{Claims}
use web3_blitz.Api.Access.{
  Handler, replied, serve, split_n, bearer_part, jwt_middleware, has_permission, rbac_result,
  rbac_middleware,
}
use web3_blitz.Api.Access.Review.{HasPermission, has_permission-true}
use web3_blitz.Api.Mux.{
  Operation, register, login, refresh, logout, forgot_password, reset_password, list_users,
  upgrade_user, list_withdrawal_limits, update_withdrawal_limit, list_pending_withdrawals,
  approve_withdrawal, reject_withdrawal, Limiter, Route, routes, route_at, limited, permitted,
  authenticated, dispatch,
}

-- Who may use an operation: anyone, a user who is signed in, or one with a permission.
pub data Need : Type 0 where
  anyone signed_in : Need
  permission : String → Need

abbrev pub needs : Operation → Need
needs register = anyone
needs login = anyone
needs refresh = anyone
needs logout = anyone
needs forgot_password = anyone
needs reset_password = anyone
needs list_users = permission "user:read"
needs upgrade_user = permission "user:upgrade"
needs list_withdrawal_limits = permission "limit:read"
needs update_withdrawal_limit = permission "limit:write"
needs list_pending_withdrawals = permission "withdraw:review"
needs approve_withdrawal = permission "withdraw:review"
needs reject_withdrawal = permission "withdraw:review"
needs _ = signed_in

module _ (parse : String → Option Claims) (header : String) where
  -- The header bears a token that the JWT library accepts, with these claims.
  abbrev pub IsSigned : Claims → Type 0
  IsSigned c =
      (token : String) × (bearer_part (split_n header) ≡ some token) × (parse token ≡ some c)

  abbrev pub IsAllowed : Need → World → Type 0
  IsAllowed anyone w = Unit
  IsAllowed signed_in w = (c : Claims) × IsSigned c
  IsAllowed (permission p) w = (c : Claims) × IsSigned c × HasPermission c.user_id p w.tables

  jwt_inv :
      {A : Type 0} (next : Handler A) (w : World) {r : Reply A}
      → (jwt_middleware parse header next w).0 ≡ replied r
      → (c : Claims) × IsSigned c × ((next (some c) w).0 ≡ replied r)
  unfolding jwt_middleware
  jwt_inv next w h = elim (Option-cases (bearer_part (split_n header))) [
    | inl e ↦ absurd (ground arith)
    | inr (token, e) ↦ elim (Option-cases (parse token)) [
      | inl f ↦ absurd (ground arith)
      | inr (c, f) ↦ (c, (token, e, f), ground arith)
    ]
  ]

  rbac_inv :
      {A : Type 0} (p : String) (next : Handler A) (c : Claims) (w : World) {r : Reply A}
      → (rbac_middleware p next (some c) w).0 ≡ replied r
      → HasPermission c.user_id p w.tables
  unfolding rbac_middleware rbac_result
  rbac_inv p next c w h = elim (Reply-cases (has_permission c.user_id p w).0) [
    | inr (d, e) ↦ absurd (ground arith)
    | inl (b, e) ↦ elim (Bool-cases b) [
      | inr f ↦ absurd (ground arith)
      | inl f ↦ (has_permission-true c.user_id p w (e ∙ ap ok f)).0
    ]
  ]

  -- The middleware that a need asks for.
  abbrev Guards : Bool → Option String → Need → Type 0
  Guards jwt p anyone = Unit
  Guards jwt p signed_in = jwt ≡ true
  Guards jwt p (permission name) = (jwt ≡ true) × (p ≡ some name)

  guarded_lem :
      {A : Type 0} (need : Need) (jwt : Bool) (p : Option String) (next : Handler A) (w : World)
      {r : Reply A}
      → Guards jwt p need
      → (authenticated jwt parse header (permitted p next) w).0 ≡ replied r
      → IsAllowed need w
  guarded_lem anyone jwt p next w g h = tt
  guarded_lem signed_in true p next w g h =
      let (c, signed, _) = jwt_inv (permitted p next) w h in (c, signed)
  guarded_lem signed_in false p next w g h = cc
  guarded_lem (permission name) true (some q) next w g h =
      let (c, signed, ran) = jwt_inv (permitted (some q) next) w h in
      let same : q ≡ name = cc in (c, signed, rw same at (rbac_inv q next c w ran))
  guarded_lem (permission name) true none next w g h = cc
  guarded_lem (permission name) false p next w g h = cc

  routes-Guards : All (λ (r : Route). Guards r.jwt r.permission (needs r.operation)) routes
  unfolding routes
  routes-Guards = ground arith

  find_row-All :
      (P : Route → Type 0) (p : Route → Bool) (rs : List Route) {r : Route}
      → All P rs
      → find_row p rs ≡ some r
      → P r
  unfolding find_row
  find_row-All P p [] h e = cc
  find_row-All P p (x ∷ xs) {r} h e = elim (Bool-cases (p x)) [
    | inl f ↦ let same : x ≡ r = ground arith in rw same at h.0
    | inr f ↦ find_row-All P p xs h.1 (rw f at e)
  ]

  -- On every route: a request gets a reply of a handler only when it may use that handler. Without
  -- a token that the JWT library accepts it gets to the six account operations alone; to the seven
  -- operations of an administrator it gets only when the token's user has a role with the
  -- permission of that operation.
  pub dispatch_lem :
      {A : Type 0} (allow : Limiter → Bool) (h : Operation → Option Claims → Action A)
      (path : String) (w : World) {route : Route} {r : Reply A}
      → route_at path ≡ some route
      → (dispatch parse header allow h route w).0 ≡ replied r
      → IsAllowed (needs route.operation) w
  unfolding route_at dispatch
  dispatch_lem allow h path w {route} found ran =
      guarded_lem (needs route.operation) route.jwt route.permission
        (limited allow route.limiter (serve (h route.operation))) w
        (find_row-All (λ (r : Route). Guards r.jwt r.permission (needs r.operation)) _ routes
          routes-Guards found)
        ran
