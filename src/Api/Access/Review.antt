-- ===== src/Api/Access/Review.antt =====
-- Who gets to a route that needs a permission.
use web3_blitz.Base.{
  ℕ, ◌≡◌, refl, Bool, true, ◌&&◌, Option, some, List, [], ◌∷◌, map, String, str_eq, has_row, select,
  arith, none, false, sym, subst, Bool-cases, Option-cases, ◌⊎◌, inl, inr,
}
use web3_blitz.Db.Models.{Tables, Permission}
use web3_blitz.Db.Users.{get_user_permissions, is_granted}
use web3_blitz.Effects.{World, ok, fail, Action, try_read, is_down, after_query, queried}
use web3_blitz.Api.Request.{Claims}
use web3_blitz.Code.{internal}
use web3_blitz.Api.Access.{
  Served, stopped, serve, split_n, bearer_part, jwt_middleware, has_permission, rbac_result,
  rbac_middleware, rate_limit_middleware, review_route,
}

-- The user has a role that has a permission with this name.
abbrev pub HasPermission : ℕ → String → Tables → Type 0
HasPermission user name t =
    has_row (λ p. is_granted user t p && str_eq p.name name) t.permissions ≡ true

has_row-map :
    (name : String) (user : ℕ) (t : Tables) (ps : List Permission)
    → has_row (λ n. str_eq n name) (map (λ p. p.name) (select (is_granted user t) ps))
      ≡ has_row (λ p. is_granted user t p && str_eq p.name name) ps
unfolding has_row select
has_row-map name user t [] = refl
has_row-map name user t (p ∷ ps) = ground (arith, has_row-map name user t ps)

pub has_permission-true :
    (user : ℕ) (name : String) (w : World)
    → (has_permission user name w).0 ≡ ok true
    → HasPermission user name w.tables
      × ((has_permission user name w).1 ≡ record w { outages = after_query w.outages })
unfolding has_permission try_read get_user_permissions
has_permission-true user name w h =
    let e = has_row-map name user w.tables w.tables.permissions in
    elim (Bool-cases (is_down w.outages)) [
      | inl d ↦ absurd (ground arith)
      | inr d ↦ (ground (arith, e), ground arith)
    ]

has_permission-quiet :
    (user : ℕ) (name : String) (w : World)
    → (has_permission user name w).1 ≡ record w { outages = after_query w.outages }
unfolding has_permission try_read
has_permission-quiet user name w = ground arith

has_permission-down :
    (user : ℕ) (name : String) (w : World)
    → is_down w.outages ≡ true
    → (has_permission user name w).0 ≡ fail internal
unfolding has_permission try_read
has_permission-down user name w d = ground arith

has_permission-up :
    (user : ℕ) (name : String) (w : World)
    → is_down w.outages ≡ false
    → (has_permission user name w).0
      ≡ ok (has_row (λ p. is_granted user w.tables p && str_eq p.name name) w.tables.permissions)
unfolding has_permission try_read get_user_permissions
has_permission-up user name w d =
    ground (arith, has_row-map name user w.tables w.tables.permissions)

-- What comes of a request with valid claims, by the first of the guards that stops it.
abbrev pub IsGuarded :
    {A : Type 0}
    → String
    → Claims
    → Bool
    → (Option Claims → Action A)
    → World
    → Served A × World
    → Type 0
IsGuarded name c allowed h w y =
    ((is_down w.outages ≡ true) × (y ≡ (stopped 500, queried w)))
    ⊎ ((is_down w.outages ≡ false)
        × (¬ (HasPermission c.user_id name w.tables))
        × (y ≡ (stopped 403, queried w)))
    ⊎ ((is_down w.outages ≡ false)
        × HasPermission c.user_id name w.tables
        × (allowed ≡ false)
        × (y ≡ (stopped 429, queried w)))
    ⊎ ((is_down w.outages ≡ false)
        × HasPermission c.user_id name w.tables
        × (allowed ≡ true)
        × (y ≡ serve h (some c) (queried w)))

rbac_lem :
    {A : Type 0} (name : String) (c : Claims) (allowed : Bool) (h : Option Claims → Action A)
    (w : World)
    → IsGuarded name c allowed h w
        (rbac_middleware name (rate_limit_middleware allowed (serve h)) (some c) w)
unfolding rbac_middleware rate_limit_middleware rbac_result
rbac_lem name c allowed h w =
    let quiet = has_permission-quiet c.user_id name w in
    elim (Bool-cases (is_down w.outages)) [
      | inl d ↦ inl (d, ground (arith, quiet, has_permission-down c.user_id name w d))
      | inr d ↦
          let e = has_permission-up c.user_id name w d in
          elim (Bool-cases (
            has_row (λ p. is_granted c.user_id w.tables p && str_eq p.name name)
              w.tables.permissions)) [
                | inr f ↦ inr (inl (d, λ g. ground arith, ground (arith, quiet)))
                | inl f ↦ elim (Bool-cases allowed) [
                  | inr g ↦ inr (inr (inl (d, f, g, ground (arith, quiet))))
                  | inl g ↦ inr (inr (inr (d, f, g, ground (arith, quiet))))
                ]
              ]
    ]

-- A route for the review of withdrawals, for any header, state and answer of the limiter. A header
-- without a bearer token, or with one that the JWT library refuses, is answered 401 and leaves the
-- state as it was. With the claims of an accepted token the state is the one from before but for
-- one answer of the database that was used up, and the first guard that fails decides: 500 when
-- that query fails; else 403 when the user has no role with the permission "withdraw:review"; else
-- 429 when the limiter refuses the client; else the handler runs in that state, for those claims,
-- and its reply is the answer.
pub review_route_lem :
    {A : Type 0} (parse : String → Option Claims) (header : String) (allowed : Bool)
    (h : Option Claims → Action A) (w : World)
    → (((bearer_part (split_n header) ≡ none)
          ⊎ ((token : String) × (bearer_part (split_n header) ≡ some token) × (parse token ≡ none)))
        × (review_route parse header allowed h w ≡ (stopped 401, w)))
      ⊎ ((token : String) × (c : Claims) × (bearer_part (split_n header) ≡ some token)
          × (parse token ≡ some c)
          × IsGuarded "withdraw:review" c allowed h w (review_route parse header allowed h w))
unfolding review_route jwt_middleware
review_route_lem parse header allowed h w = elim (Option-cases (bearer_part (split_n header))) [
  | inl e ↦ inl (inl e, ground arith)
  | inr (token, e) ↦ elim (Option-cases (parse token)) [
    | inl f ↦ inl (inr (token, e, f), ground arith)
    | inr (c, f) ↦
        let next = rate_limit_middleware allowed (serve h) in
        let ran : review_route parse header allowed h w
            ≡ rbac_middleware "withdraw:review" next (some c) w =
          ground arith in
        inr (
          token,
          c,
          e,
          f,
          subst (IsGuarded "withdraw:review" c allowed h w) (sym ran)
              (rbac_lem "withdraw:review" c allowed h w),
        )
  ]
]
