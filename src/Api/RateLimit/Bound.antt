-- ===== src/Api/RateLimit/Bound.antt =====
-- How many requests of one client the limiter lets through.
use web3_blitz.Base.{
  ℕ, ◌+◌, ◌*◌, ◌≤◌, ap, List, [], ◌∷◌, String, str_eq, eq_iff, arith, Bool-cases, inl, inr,
}
use web3_blitz.Api.RateLimit.{
  Limits, Limiter, Event, request, sweep, pass, token, refill, get, step, admitted_now, admitted,
  elapsed,
}
use web3_blitz.Api.RateLimit.Level.{
  level, IsMap, RefillsInTime, allow_lem, allow-other, allow-IsMap, level-cleanup, cleanup-IsMap,
  refill-later, refill_le,
}

abbrev span : Event → ℕ
span (pass d) = d
span _ = 0

step-IsMap : (l : Limits) (e : Event) (s : Limiter) → IsMap s.buckets → IsMap (step l e s).buckets
unfolding step
step-IsMap l (request k) s h = allow-IsMap l s.now k s.buckets h
step-IsMap l sweep s h = cleanup-IsMap s.now s.buckets h
step-IsMap l (pass d) s h = h

-- What is spent in one event and what is left come out of what was there and what the time adds.
step-level :
    (l : Limits) (k : String) (e : Event) (s : Limiter)
    → RefillsInTime l
    → IsMap s.buckets
    → admitted_now l k e s * token + level l k (step l e s) ≤ level l k s + span e * l.rate
unfolding step
step-level l k (request j) s r h = elim (Bool-cases (str_eq j k)) [
  | inr e ↦ rw e (ground (arith, ap (refill l s.now) (allow-other l s.now j k s.buckets e)))
  | inl e ↦ rw e (ground (arith, eq_iff j k, allow_lem l s.now j s.buckets))
]
step-level l k sweep s r h = ground (arith, level-cleanup l s.now k s.buckets r h)
step-level l k (pass d) s r h = ground (arith, refill-later l s.now d (get k s.buckets))

admitted-level :
    (l : Limits) (k : String) (es : List Event) (s : Limiter)
    → RefillsInTime l
    → IsMap s.buckets
    → admitted l k es s * token ≤ level l k s + elapsed es * l.rate
unfolding admitted elapsed
admitted-level l k [] s r h = omega arith
admitted-level l k (request j ∷ es) s r h = ground (
  arith,
  step-level l k (request j) s r h,
  admitted-level l k es (step l (request j) s) r (step-IsMap l (request j) s h),
)
admitted-level l k (sweep ∷ es) s r h = ground (
  arith,
  step-level l k sweep s r h,
  admitted-level l k es (step l sweep s) r (step-IsMap l sweep s h),
)
admitted-level l k (pass d ∷ es) s r h = ground (
  arith,
  step-level l k (pass d) s r h,
  admitted-level l k es (step l (pass d) s) r (step-IsMap l (pass d) s h),
)

-- Over any sequence of requests (of this client and of others), cleanups and waits, one client is
-- let through at most as often as the capacity and the rate for the time that has passed allow.
-- The buckets are a map, and five minutes refill a bucket, as they do with the limits in use: so
-- the cleanup, which forgets how much a client has spent, gives nobody more.
pub admitted_le :
    (l : Limits) (k : String) (es : List Event) (s : Limiter)
    → RefillsInTime l
    → IsMap s.buckets
    → admitted l k es s * token ≤ l.capacity + elapsed es * l.rate
admitted_le l k es s r h =
    let a = admitted-level l k es s r h in
    let b = refill_le l s.now (get k s.buckets) in ground (arith, a, b)
