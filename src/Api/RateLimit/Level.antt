-- ===== src/Api/RateLimit/Level.antt =====
-- What a client may still spend, under each event: cleaning up is not seen.
use web3_blitz.Base.{
  ℕ, zero, suc, ◌+◌, ◌-◌, ◌*◌, ◌≤◌, ◌<◌, ◌≡◌, ◌⊎◌, sym, refl, ◌∙◌, ap, true, false, Option, none,
  some, List, [], ◌∷◌, String, str_eq, eq_iff, eq_refl, ltb, arith, find_row, select, Bool-cases,
  inl, inr,
}
use web3_blitz.Api.RateLimit.{
  Limits, RateBucket, Limiter, token, put, get, refill, allow, idle_limit, cleanup,
}

-- The tokens that a request of the client would find.
abbrev pub level : Limits → String → Limiter → ℕ
level l k s = refill l s.now (get k s.buckets)

mul_le : (a b r : ℕ) → a ≤ b → a * r ≤ b * r
mul_le zero b r h = omega arith
mul_le (suc a) zero r h = omega arith
mul_le (suc a) (suc b) r h = omega (arith, mul_le a b r (omega arith))

get-put : (b : RateBucket) (bs : List RateBucket) → get b.key (put b bs) ≡ some b
unfolding find_row put
get-put b [] = ground (arith, eq_refl b.key)
get-put b (x ∷ xs) = ground (arith, eq_refl b.key, get-put b xs)

get-put_other :
    (k : String) (b : RateBucket) (bs : List RateBucket)
    → str_eq b.key k ≡ false
    → get k (put b bs) ≡ get k bs
unfolding find_row put
get-put_other k b [] h = ground arith
get-put_other k b (x ∷ xs) h =
    ground (arith, get-put_other k b xs, eq_iff x.key b.key, eq_iff x.key k, eq_iff b.key k)

-- The list is a map: no key occurs twice.
abbrev pub IsMap : List RateBucket → Type 0
IsMap [] = Unit
IsMap (x ∷ xs) = (get x.key xs ≡ none) × IsMap xs

put-IsMap : (b : RateBucket) (bs : List RateBucket) → IsMap bs → IsMap (put b bs)
unfolding put find_row
put-IsMap b [] h = (refl, tt)
put-IsMap b (x ∷ xs) h = elim (Bool-cases (str_eq x.key b.key)) [
  | inl e ↦ rw e (ground (arith, eq_iff x.key b.key, h.0), h.1)
  | inr e ↦ rw e (
    get-put_other x.key b xs (ground (arith, eq_iff x.key b.key, eq_iff b.key x.key)) ∙ h.0,
    put-IsMap b xs h.1,
  )
]

get-cleanup-none :
    (now : ℕ) (k : String) (bs : List RateBucket) → get k bs ≡ none → get k (cleanup now bs) ≡ none
unfolding cleanup select find_row
get-cleanup-none now k [] h = refl
get-cleanup-none now k (x ∷ xs) h = ground (arith, get-cleanup-none now k xs)

pub cleanup-IsMap : (now : ℕ) (bs : List RateBucket) → IsMap bs → IsMap (cleanup now bs)
unfolding cleanup select
cleanup-IsMap now [] h = tt
cleanup-IsMap now (x ∷ xs) h = elim (Bool-cases (ltb idle_limit (now - x.last_seen))) [
  | inl e ↦ rw e (cleanup-IsMap now xs h.1)
  | inr e ↦ rw e (get-cleanup-none now x.key xs h.0, cleanup-IsMap now xs h.1)
]

-- After five minutes a bucket is full.
abbrev pub RefillsInTime : Limits → Type 0
RefillsInTime l = l.capacity ≤ idle_limit * l.rate

idle_full :
    (l : Limits) (now : ℕ) (b : RateBucket)
    → RefillsInTime l
    → ltb idle_limit (now - b.last_seen) ≡ true
    → refill l now (some b) ≡ refill l now none
unfolding refill
idle_full l now b r e =
    let m = mul_le idle_limit (now - b.last_seen) l.rate (ground arith) in ground (arith, m)

-- Cleaning up changes no client's level, when a bucket that has been idle for five minutes is full.
pub level-cleanup :
    (l : Limits) (now : ℕ) (k : String) (bs : List RateBucket)
    → RefillsInTime l
    → IsMap bs
    → refill l now (get k (cleanup now bs)) ≡ refill l now (get k bs)
unfolding cleanup select find_row
level-cleanup l now k [] r m = refl
level-cleanup l now k (x ∷ xs) r m = elim (Bool-cases (ltb idle_limit (now - x.last_seen))) [
  | inr e ↦ rw e (elim (Bool-cases (str_eq x.key k)) [
    | inl f ↦ rw f refl
    | inr f ↦ rw f (level-cleanup l now k xs r m.1)
  ])
  | inl e ↦ rw e (elim (Bool-cases (str_eq x.key k)) [
    | inr f ↦ rw f (level-cleanup l now k xs r m.1)
    | inl f ↦ rw f (
        let gone : get k xs ≡ none = ground (arith, eq_iff x.key k, m.0) in
        level-cleanup l now k xs r m.1 ∙ ap (refill l now) gone ∙ sym (idle_full l now x r e))
  ])
]

pub refill_le : (l : Limits) (now : ℕ) (b : Option RateBucket) → refill l now b ≤ l.capacity
unfolding refill
refill_le l now none = omega arith
refill_le l now (some b) = ground arith

-- A bucket that was seen just now has its own tokens.
refill_now :
    (l : Limits) (now : ℕ) (k : String) (t : ℕ)
    → t ≤ l.capacity
    → refill l now (some (record { key = k; tokens = t; last_seen = now })) ≡ t
unfolding refill
refill_now l now k t h = ground (arith, mul_le (now - now) 0 l.rate (omega arith))

-- `Allow` lets a client through exactly when it finds a token, and takes one.
pub allow_lem :
    (l : Limits) (now : ℕ) (k : String) (bs : List RateBucket)
    → (((allow l now k bs).0 ≡ true)
        × (refill l now (get k (allow l now k bs).1) + token ≡ refill l now (get k bs)))
      ⊎ (((allow l now k bs).0 ≡ false)
          × (refill l now (get k bs) < token)
          × (refill l now (get k (allow l now k bs).1) ≡ refill l now (get k bs)))
unfolding allow
allow_lem l now k bs =
    let t = refill l now (get k bs) in
    let full = refill_le l now (get k bs) in
    elim (Bool-cases (ltb t token)) [
      | inl e ↦ rw e (
          inr (
            refl,
            ground arith,
            ap (refill l now) (get-put (record { key = k; tokens = t; last_seen = now }) bs)
                ∙ refill_now l now k t full,
          ))
      | inr e ↦ rw e (
          inl (
            refl,
            ap (λ (b : Option RateBucket). refill l now b + token)
                  (get-put (record { key = k; tokens = t - token; last_seen = now }) bs)
                ∙ ground (arith, refill_now l now k (t - token) (ground (arith, full))),
          ))
    ]

pub allow-other :
    (l : Limits) (now : ℕ) (j k : String) (bs : List RateBucket)
    → str_eq j k ≡ false
    → get k (allow l now j bs).1 ≡ get k bs
unfolding allow
allow-other l now j k bs h =
    let t = refill l now (get j bs) in
    ground (
      arith,
      get-put_other k (record { key = j; tokens = t; last_seen = now }) bs h,
      get-put_other k (record { key = j; tokens = t - token; last_seen = now }) bs h,
    )

pub allow-IsMap :
    (l : Limits) (now : ℕ) (k : String) (bs : List RateBucket)
    → IsMap bs
    → IsMap (allow l now k bs).1
unfolding allow
allow-IsMap l now k bs h =
    let t = refill l now (get k bs) in
    elim (Bool-cases (ltb t token)) [
      | inl e ↦ rw e (put-IsMap _ bs h)
      | inr e ↦ rw e (put-IsMap _ bs h)
    ]

-- A level grows by at most the rate.
pub refill-later :
    (l : Limits) (now d : ℕ) (b : Option RateBucket)
    → refill l (now + d) b ≤ refill l now b + d * l.rate
unfolding refill
refill-later l now d none = omega arith
refill-later l now d (some b) =
    let m = mul_le (now + d - b.last_seen) (now - b.last_seen + d) l.rate (omega arith) in
    ground (arith, m)
