-- ===== src/RateLimit/Capacity.antt =====
-- rate-limit.ts: how many calls one bucket grants over any stretch of time.
use pdatahub.Prelude.{
  ℕ, String, ◌+◌, List, ◌≤◌, ◌*◌, ◌≡◌, ◌∷◌, ◌-◌, arith, if◌then◌else◌, str_eq, [], refl,
}
use pdatahub.RateLimit.{token, RateLimiter, consume}
use pdatahub.RateLimit.Cost.{granted, mul_split}
use pdatahub.RateLimit.Consume.{
  IsValid, available, Call, bucket_of, consume-IsValid, config-consume, available-consume,
  available_growth, available-le-burst,
}

-- The calls that bucket `k` grants in a sequence of calls on any buckets.
unfoldable pub granted_on : String → List Call → RateLimiter → ℕ
granted_on k [] rl = 0
granted_on k (c ∷ rest) rl =
    let (rl', verdict) = consume c.key c.route_class c.at rl in
    (if str_eq (bucket_of c) k then granted verdict else 0) + granted_on k rest rl'

-- Times that do not fall, between `start` and `end`.
abbrev pub IsDuring : ℕ → ℕ → List Call → Type 0
IsDuring start end [] = start ≤ end
IsDuring start end (c ∷ rest) = (start ≤ c.at) × IsDuring c.at end rest

granted_on-cons :
    (k : String) (c : Call) (rest : List Call) (rl : RateLimiter)
    → granted_on k (c ∷ rest) rl
      ≡ (if str_eq (bucket_of c) k then granted (consume c.key c.route_class c.at rl).1 else 0)
        + granted_on k rest (consume c.key c.route_class c.at rl).0
unfolding granted_on
granted_on-cons k c rest rl = refl

pub IsDuring-le : (start end : ℕ) (calls : List Call) → IsDuring start end calls → start ≤ end
IsDuring-le start end [] d = d
IsDuring-le start end (c ∷ rest) d = omega (arith, d.0, IsDuring-le c.at end rest d.1)

granted_within :
    (k : String) (calls : List Call) (now end : ℕ) (rl : RateLimiter)
    → IsValid now rl
    → IsDuring now end calls
    → token * granted_on k calls rl ≤ available rl k now + (end - now) * rl.config.per_minute
granted_within k [] now end rl v d = unfold granted_on in omega arith
granted_within k (c ∷ rest) now end rl v d =
    let rl' = (consume c.key c.route_class c.at rl).0 in
    ground (
      arith,
      granted_on-cons k c rest rl,
      granted_within k rest c.at end rl' (consume-IsValid now rl v c d.0) d.1,
      available-consume now rl v c d.0 k,
      available_growth k now rl v c.at d.0,
      config-consume c rl,
      IsDuring-le c.at end rest d.1,
      mul_split now c.at end rl.config.per_minute d.0 (IsDuring-le c.at end rest d.1),
    )

-- From any valid limiter, whatever the calls on whatever buckets, one bucket grants over a stretch
-- of time at most a burst and what the refill adds in that time.
pub granted-le-burst :
    (k : String) (calls : List Call) (start end : ℕ) (rl : RateLimiter)
    → IsValid start rl
    → IsDuring start end calls
    → token * granted_on k calls rl
      ≤ rl.config.burst_capacity * token + (end - start) * rl.config.per_minute
granted-le-burst k calls start end rl v d =
    omega (arith, granted_within k calls start end rl v d, available-le-burst k start rl v)
