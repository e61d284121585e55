-- ===== src/Tests/Clients.antt =====
-- The rate limiter at concrete clients.
use web3_blitz.Base.{◌≤◌, ◌+◌, ◌*◌, refl, List, [], ◌∷◌, arith, find_row}
use web3_blitz.Api.RateLimit.{
  Limiter, RateBucket, Event, request, sweep, pass, token, auth_limits, admitted, elapsed,
}
use web3_blitz.Api.RateLimit.Level.{RefillsInTime, IsMap}
use web3_blitz.Api.RateLimit.Bound.{admitted_le}

auth_limits-RefillsInTime : RefillsInTime auth_limits
auth_limits-RefillsInTime = omega arith

abbrev one_client : List RateBucket
one_client = record { key = "10.0.0.1"; tokens = 7000000000; last_seen = 5 } ∷ []

one_client-IsMap : IsMap one_client
unfolding find_row
one_client-IsMap = (refl, tt)

abbrev events : List Event
events = request "10.0.0.1" ∷ pass 9 ∷ sweep ∷ request "10.0.0.1" ∷ []

abbrev limiter : Limiter
limiter = record { buckets = one_client; now = 20 }

admitted_le_example :
    admitted auth_limits "10.0.0.1" events limiter * token
    ≤ auth_limits.capacity + elapsed events * auth_limits.rate
admitted_le_example =
    admitted_le auth_limits "10.0.0.1" events limiter auth_limits-RefillsInTime one_client-IsMap
