-- ===== src/Api/RateLimit.antt =====
-- internal/api/ratelimit.go: a token bucket for each client, with the limiters of handler.go.
-- Time is in nanoseconds on the monotonic clock and tokens are counted in units of 10^-10, in which
-- both rates of handler.go are whole numbers for each nanosecond; rounding of float64 is left out.
pub mod Level
pub mod Bound
use web3_blitz.Base.{
  ℕ, ◌+◌, ◌-◌, ◌*◌, Bool, true, false, not, Option, none, some, List, [], ◌∷◌, String, str_eq, ltb,
  find_row, select, if◌then◌else◌,
}

abbrev pub token : ℕ
token = 10000000000

-- `NewRateLimiter(rate, capacity)`: units for each nanosecond, and units.
pub record Limits : Type 0 where
  pub rate : ℕ
  pub capacity : ℕ

abbrev general_limits : Limits
general_limits = record { rate = 20; capacity = 100 * token }

abbrev pub auth_limits : Limits
auth_limits = record { rate = 1; capacity = 5 * token }

-- One entry of the map `buckets`.
pub record RateBucket : Type 0 where
  pub key : String
  pub tokens : ℕ
  pub last_seen : ℕ

abbrev min : ℕ → ℕ → ℕ
min a b = if ltb b a then b else a

-- A map assignment: the entry with the key is replaced, or a new one is added.
pub put : RateBucket → List RateBucket → List RateBucket
put b [] = b ∷ []
put b (x ∷ xs) = if str_eq x.key b.key then b ∷ xs else x ∷ put b xs

abbrev pub get : String → List RateBucket → Option RateBucket
get k bs = find_row (λ b. str_eq b.key k) bs

-- The tokens after the refill up to `now`.
pub refill : Limits → ℕ → Option RateBucket → ℕ
refill l now none = l.capacity
refill l now (some b) = min l.capacity (b.tokens + (now - b.last_seen) * l.rate)

-- `Allow`.
pub allow : Limits → ℕ → String → List RateBucket → Bool × List RateBucket
allow l now k bs =
    let t = refill l now (get k bs) in
    if ltb t token
    then (false, put (record { key = k; tokens = t; last_seen = now }) bs)
    else (true, put (record { key = k; tokens = t - token; last_seen = now }) bs)

abbrev idle_limit : ℕ
idle_limit = 300000000000

-- `cleanup`.
pub cleanup : ℕ → List RateBucket → List RateBucket
cleanup now bs = select (λ b. not (ltb idle_limit (now - b.last_seen))) bs

-- `clientIP`: the two headers, "" when there is none, and the address of the connection.
unfoldable client_ip : String → String → String → String
client_ip forwarded real remote =
    if not (str_eq forwarded "") then forwarded else if not (str_eq real "") then real else remote

-- What the limiter goes through.
pub data Event : Type 0 where
  request : String → Event
  sweep : Event
  pass : ℕ → Event

pub record Limiter : Type 0 where
  pub buckets : List RateBucket
  pub now : ℕ

pub step : Limits → Event → Limiter → Limiter
step l (request k) s = record s { buckets = (allow l s.now k s.buckets).1 }
step l sweep s = record s { buckets = cleanup s.now s.buckets }
step l (pass d) s = record s { now = s.now + d }

-- How many requests of the client have been let through.
abbrev count : Bool → ℕ
count true = 1
count false = 0

abbrev admitted_now : Limits → String → Event → Limiter → ℕ
admitted_now l k (request j) s = if str_eq j k then count (allow l s.now j s.buckets).0 else 0
admitted_now l k _ s = 0

pub admitted : Limits → String → List Event → Limiter → ℕ
unfolding step
admitted l k [] s = 0
admitted l k (e ∷ es) s = admitted_now l k e s + admitted l k es (step l e s)

-- How much time has passed.
pub elapsed : List Event → ℕ
elapsed [] = 0
elapsed (pass d ∷ es) = d + elapsed es
elapsed (_ ∷ es) = elapsed es
