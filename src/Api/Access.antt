-- ===== src/Api/Access.antt =====
-- internal/auth/middleware.go and rbac.go, and the routes of internal/api/mux.go that need a
-- permission.
pub mod Review
use Prim.Native.Char.{code}
use web3_blitz.Base.{
  ℕ, Bool, true, false, Option, none, some, List, [], ◌∷◌, String, ◌==◌, str_eq, has_row,
  if◌then◌else◌,
}
use web3_blitz.Code.{internal}
use web3_blitz.Db.Models.{Tables}
use web3_blitz.Db.Users.{get_user_permissions}
use web3_blitz.Effects.{World, Reply, ok, fail, Action, try_read}
use web3_blitz.Api.Request.{Claims}

-- An HTTP status from `http.Error` in a middleware, or the reply of the handler behind it.
pub data Served (A : Type 0) : Type 0 where
  stopped : ℕ → Served A
  replied : Reply A → Served A

-- A handler behind middleware: the claims in the request's context, then the state.
abbrev pub Handler : Type 0 → Type 0
Handler A = Option Claims → World → Served A × World

-- The innermost handler.
abbrev pub serve : {A : Type 0} → (Option Claims → Action A) → Handler A
serve h claims w = (replied (h claims w).0, (h claims w).1)

abbrev in_front : Option (String × String) → (String → String) → Option (String × String)
in_front none f = none
in_front (some (a, b)) f = some (f a, b)

-- `strings.SplitN(header, " ", 2)`, when it gives two parts.
unfoldable pub split_n : String → Option (String × String)
split_n String.[] = none
split_n (String.◌∷◌ c s) =
    let rest = split_n s in
    if code c == b' ' then some ("", s) else in_front rest (λ a. String.◌∷◌ c a)

-- The two parts of the header, when the first is "Bearer".
abbrev pub bearer_part : Option (String × String) → Option String
bearer_part none = none
bearer_part (some (a, b)) = if str_eq a "Bearer" then some b else none

-- `JWTMiddleware`, with what `ParseToken` answers: the JWT library checks the signature and expiry.
unfoldable pub jwt_middleware :
    {A : Type 0} → (String → Option Claims) → String → Handler A → World → Served A × World
jwt_middleware parse header next w = elim (bearer_part (split_n header)) [
  | none ↦ (stopped 401, w)
  | some token ↦ elim (parse token) [ none ↦ (stopped 401, w) | some c ↦ next (some c) w ]
]

-- `HasPermission`.
unfoldable pub has_permission : ℕ → String → Action Bool
has_permission user permission w =
    let x = try_read internal (get_user_permissions user) w in
    elim x.0 [
      | ok names ↦ (ok (has_row (λ p. str_eq p permission) names), x.1)
      | fail c ↦ (fail c, x.1)
    ]

-- What `RBACMiddleware` does with the answer.
unfoldable pub rbac_result :
    {A : Type 0} → Reply Bool × World → (World → Served A × World) → Served A × World
rbac_result (ok true, w) next = next w
rbac_result (ok false, w) next = (stopped 403, w)
rbac_result (fail c, w) next = (stopped 500, w)

unfoldable pub rbac_middleware : {A : Type 0} → String → Handler A → Handler A
rbac_middleware permission next none w = (stopped 401, w)
rbac_middleware permission next (some c) w =
    rbac_result (has_permission c.user_id permission w) (next (some c))

-- `RateLimitMiddleware`, with the answer of `Allow`.
pub rate_limit_middleware : {A : Type 0} → Bool → Handler A → Handler A
rate_limit_middleware allowed next claims w = if allowed then next claims w else (stopped 429, w)

-- The three routes under /api/v1/admin/withdrawals.
pub review_route :
    {A : Type 0}
    → (String → Option Claims)
    → String
    → Bool
    → (Option Claims → Action A)
    → World
    → Served A × World
review_route parse header allowed h =
    jwt_middleware parse header
      (rbac_middleware "withdraw:review" (rate_limit_middleware allowed (serve h)))

-- The other routes for administrators, by the permission that each has in `NewMux`.
unfoldable admin_route :
    {A : Type 0}
    → (String → Option Claims)
    → String
    → String
    → (Option Claims → Action A)
    → World
    → Served A × World
admin_route parse header permission h =
    jwt_middleware parse header (rbac_middleware permission (serve h))
