-- ===== src/Api/Mux.antt =====
-- internal/api/mux.go: `NewMux`, the routes with the middleware before each handler.
pub mod Guards
use web3_blitz.Base.{Bool, true, false, Option, none, some, List, [], ◌∷◌, String, str_eq, find_row}
use web3_blitz.Effects.{World, Action}
use web3_blitz.Api.Request.{Claims}
use web3_blitz.Api.Access.{
  Served, Handler, serve, jwt_middleware, rbac_middleware, rate_limit_middleware,
}

-- The handlers.
pub data Operation : Type 0 where
  register login refresh logout forgot_password reset_password : Operation
  generate_address get_balance list_deposits get_total_balance list_withdrawals : Operation
  withdraw get_me : Operation
  list_users upgrade_user list_withdrawal_limits update_withdrawal_limit : Operation
  list_pending_withdrawals approve_withdrawal reject_withdrawal : Operation

-- The two limiters of the handler.
pub data Limiter : Type 0 where
  general_rl auth_rl : Limiter

-- A route, with its middleware from the outside to the inside.
pub record Route : Type 0 where
  pub path : String
  pub jwt : Bool
  pub permission : Option String
  pub limiter : Option Limiter
  pub operation : Operation

abbrev public : String → Limiter → Operation → Route
public path l op = record {
  path = path;
  jwt = false;
  permission = none;
  limiter = some l;
  operation = op;
}

abbrev pub signed : String → Operation → Route
signed path op = record {
  path = path;
  jwt = true;
  permission = none;
  limiter = some general_rl;
  operation = op;
}

abbrev pub admin : String → String → Option Limiter → Operation → Route
admin path p l op = record {
  path = path;
  jwt = true;
  permission = some p;
  limiter = l;
  operation = op;
}

-- `/metrics` and `/healthz` have no handler of the service.
unfoldable pub routes : List Route
routes =
    public "/api/v1/register" auth_rl register
    ∷ public "/api/v1/login" auth_rl login
    ∷ public "/api/v1/refresh" auth_rl refresh
    ∷ public "/api/v1/logout" general_rl logout
    ∷ public "/api/v1/forgot-password" auth_rl forgot_password
    ∷ public "/api/v1/reset-password" auth_rl reset_password
    ∷ signed "/api/v1/address" generate_address
    ∷ signed "/api/v1/balance" get_balance
    ∷ signed "/api/v1/deposits" list_deposits
    ∷ signed "/api/v1/balance/total" get_total_balance
    ∷ signed "/api/v1/withdrawals" list_withdrawals
    ∷ signed "/api/v1/withdraw" withdraw
    ∷ signed "/api/v1/users/me" get_me
    ∷ admin "/api/v1/users" "user:read" none list_users
    ∷ admin "/api/v1/users/upgrade" "user:upgrade" none upgrade_user
    ∷ admin "/api/v1/withdrawal-limits" "limit:read" none list_withdrawal_limits
    ∷ admin "/api/v1/withdrawal-limits/update" "limit:write" none update_withdrawal_limit
    ∷ admin "/api/v1/admin/withdrawals/pending" "withdraw:review" (some general_rl)
        list_pending_withdrawals
    ∷ admin "/api/v1/admin/withdrawals/approve" "withdraw:review" (some general_rl)
        approve_withdrawal
    ∷ admin "/api/v1/admin/withdrawals/reject" "withdraw:review" (some general_rl) reject_withdrawal
    ∷ []

-- The pattern of a path without a slash at its end matches that path alone.
unfoldable pub route_at : String → Option Route
route_at path = find_row (λ r. str_eq r.path path) routes

abbrev pub limited : {A : Type 0} → (Limiter → Bool) → Option Limiter → Handler A → Handler A
limited allow none next = next
limited allow (some l) next = rate_limit_middleware (allow l) next

abbrev permitted : {A : Type 0} → Option String → Handler A → Handler A
permitted none next = next
permitted (some p) next = rbac_middleware p next

abbrev authenticated :
    {A : Type 0} → Bool → (String → Option Claims) → String → Handler A → World → Served A × World
authenticated true parse header next w = jwt_middleware parse header next w
authenticated false parse header next w = next none w

-- A request through the middleware of its route, to the handlers `h`.
unfoldable pub dispatch :
    {A : Type 0}
    → (String → Option Claims)
    → String
    → (Limiter → Bool)
    → (Operation → Option Claims → Action A)
    → Route
    → World
    → Served A × World
dispatch parse header allow h r =
    authenticated r.jwt parse header
      (permitted r.permission (limited allow r.limiter (serve (h r.operation))))
