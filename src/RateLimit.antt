-- ===== src/RateLimit.antt =====
-- packages/hub-core/src/rate-limit.ts: the token bucket limiter. The source counts tokens in floating
-- point; here a token is 60000 units, so that a refill of `elapsedMs / 60_000 * perMinute` tokens is
-- `elapsed * per_minute` units, exactly. Rounding errors of the floats are not modelled. A time is a
-- number of milliseconds.
pub mod Cost
pub mod Consume
pub mod Capacity
pub mod Retry
pub mod Alike
pub mod Eviction
pub mod Route
mod Tests
use pdatahub.Prelude.{
  ℕ, ◌+◌, ◌-◌, ◌*◌, ◌/◌, String, Bool, not, Option, none, some, List, [], ◌∷◌, min, ltb, leb,
  if◌then◌else◌, Dict, lookup, insert, keep, length, Result, ok, err, str_append,
}

pub record RateLimitConfig : Type 0 where
  pub per_minute : ℕ
  pub burst_capacity : ℕ

abbrev pub default_rate_limit : RateLimitConfig
default_rate_limit = record { per_minute = 60; burst_capacity = 60 }

-- One token, in units.
abbrev pub token : ℕ
token = 60000

pub record Bucket : Type 0 where
  pub tokens : ℕ
  pub last_refill_ms : ℕ

pub record RateLimiter : Type 0 where
  pub buckets : Dict Bucket
  pub config : RateLimitConfig
  pub ttl_ms : ℕ

-- The constructor, which throws on a configuration that is not positive.
unfoldable pub new_rate_limiter : RateLimitConfig → ℕ → Result RateLimiter
new_rate_limiter config ttl =
    if leb config.per_minute 0
    then err "perMinute must be > 0"
    else if leb config.burst_capacity 0
    then err "burstCapacity must be > 0"
    else ok (record { buckets = []; config = config; ttl_ms = ttl })

pub data Verdict : Type 0 where
  allowed : ℕ → Verdict
  denied : ℕ → Verdict

unfoldable pub full : RateLimitConfig → ℕ → Bucket
full config now = record { tokens = config.burst_capacity * token; last_refill_ms = now }

-- The continuous refill; nothing is added where the clock did not advance.
unfoldable pub refill : RateLimitConfig → ℕ → Bucket → Bucket
refill config now b =
    if ltb b.last_refill_ms now
    then record {
      tokens =
          min (config.burst_capacity * token)
            (b.tokens + (now - b.last_refill_ms) * config.per_minute);
      last_refill_ms = now;
    }
    else b

-- `Math.ceil` of a quotient.
unfoldable pub ceil_div : ℕ → ℕ → ℕ
ceil_div a b = (a + (b - 1)) / b

-- The part of `consume` behind the refill: a token is taken, or the wait for one is computed.
unfoldable pub draw : RateLimitConfig → Bucket → Bucket × Verdict
draw config b =
    if leb token b.tokens
    then (record b { tokens = b.tokens - token }, allowed ((b.tokens - token) / token))
    else (b, denied (ceil_div (token - b.tokens) config.per_minute))

unfoldable pub bucket_key : String → String → String
bucket_key key route_class = str_append key (str_append "|" route_class)

-- The bucket of a key, made full on first sight.
unfoldable pub bucket_at : RateLimiter → String → ℕ → Bucket
bucket_at rl k now = elim (lookup k rl.buckets) [ none ↦ full rl.config now | some b ↦ b ]

-- `RateLimiter.consume`
unfoldable pub consume : String → String → ℕ → RateLimiter → RateLimiter × Verdict
consume key route_class now rl =
    let k = bucket_key key route_class in
    let (b, verdict) = draw rl.config (refill rl.config now (bucket_at rl k now)) in
    (record rl { buckets = insert k b rl.buckets }, verdict)

-- `b.lastRefillMs < now - ttl`
unfoldable pub is_idle : RateLimiter → ℕ → Bucket → Bool
is_idle rl now b = ltb (b.last_refill_ms + rl.ttl_ms) now

-- `RateLimiter.evictIdle`, with the number of buckets that it deleted.
unfoldable pub evict_idle : ℕ → RateLimiter → RateLimiter × ℕ
evict_idle now rl =
    if leb rl.ttl_ms 0
    then (rl, 0)
    else let left = keep (λ e. not (is_idle rl now e.1)) rl.buckets in
      (record rl { buckets = left }, length rl.buckets - length left)

-- `RateLimiter.size` and `RateLimiter.reset`
unfoldable pub size : RateLimiter → ℕ
size rl = length rl.buckets

unfoldable pub reset : RateLimiter → RateLimiter
reset rl = record rl { buckets = [] }
