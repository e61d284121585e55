-- ===== src/Tests/Routes.antt =====
-- A route for administrators at a concrete header.
use web3_blitz.Base.{◌≡◌, ◌⊎◌, true, Option, none, some, [], ◌∷◌, String}
use web3_blitz.Effects.{World, Action}
use web3_blitz.Api.Request.{Claims}
use web3_blitz.Api.Review.{ReviewReply, approve_withdrawal}
use web3_blitz.Api.Access.{stopped, bearer_part, split_n, review_route}
use web3_blitz.Api.Access.Review.{IsGuarded, review_route_lem}
use web3_blitz.Tests.Data.{manual, admin}
use web3_blitz.Tests.Reviews.{approval, one_pending}

abbrev parse : String → Option Claims
parse t = some admin

abbrev approving : Option Claims → Action ReviewReply
approving c = approve_withdrawal manual (record approval { claims = c })

-- User 1 has the role 2, which has the permission 3.
abbrev guarded : World
guarded = record one_pending {
  tables = record one_pending.tables {
    permissions = record { id = 3; name = "withdraw:review" } ∷ [];
    role_permissions = record { role_id = 2; permission_id = 3 } ∷ [];
    user_roles = record { user_id = 1; role_id = 2 } ∷ [];
  };
}

review_route_lem_example :
    (((bearer_part (split_n "Bearer abc") ≡ none)
        ⊎ ((token : String) × (bearer_part (split_n "Bearer abc") ≡ some token)
            × (parse token ≡ none)))
      × (review_route parse "Bearer abc" true approving guarded ≡ (stopped 401, guarded)))
    ⊎ ((token : String) × (c : Claims) × (bearer_part (split_n "Bearer abc") ≡ some token)
        × (parse token ≡ some c)
        × IsGuarded "withdraw:review" c true approving guarded
            (review_route parse "Bearer abc" true approving guarded))
review_route_lem_example = review_route_lem parse "Bearer abc" true approving guarded
