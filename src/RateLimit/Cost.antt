-- ===== src/RateLimit/Cost.antt =====
-- rate-limit.ts: one bucket on its own, and what a call on it costs.
use pdatahub.Prelude.{◌+◌, ◌≤◌, ◌≡◌, ◌-◌, ◌*◌, arith}
use pdatahub.RateLimit.{RateLimitConfig, token, Bucket, Verdict, allowed, denied, refill, draw, ℕ}

-- The verdict as a number of granted calls.
abbrev pub granted : Verdict → ℕ
granted (allowed n) = 1
granted (denied n) = 0

pub mul_split :
    (a t later p : ℕ) → a ≤ t → t ≤ later → (later - a) * p ≡ (t - a) * p + (later - t) * p
mul_split a t later p h le =
    let e : later - a ≡ (t - a) + (later - t) = omega arith in rw e (grind arith)

pub refill_growth :
    (config : RateLimitConfig) (b : Bucket) (t later : ℕ)
    → b.last_refill_ms ≤ t
    → t ≤ later
    → (refill config later b).tokens ≤ (refill config t b).tokens + (later - t) * config.per_minute
unfolding refill
refill_growth config b t later h le =
    ground (arith, mul_split b.last_refill_ms t later config.per_minute h le)

pub refill_bounded :
    (config : RateLimitConfig) (b : Bucket) (t : ℕ)
    → b.tokens ≤ config.burst_capacity * token
    → (refill config t b).tokens ≤ config.burst_capacity * token
unfolding refill
refill_bounded config b t h = ground arith

pub draw_cost :
    (config : RateLimitConfig) (b : Bucket)
    → (draw config b).0.tokens + token * granted (draw config b).1 ≡ b.tokens
unfolding draw
draw_cost config b = ground arith

pub draw-le : (config : RateLimitConfig) (b : Bucket) → (draw config b).0.tokens ≤ b.tokens
unfolding draw
draw-le config b = ground arith

pub last_refill-draw :
    (config : RateLimitConfig) (b : Bucket) → (draw config b).0.last_refill_ms ≡ b.last_refill_ms
unfolding draw
last_refill-draw config b = ground arith

pub last_refill-refill :
    (config : RateLimitConfig) (t : ℕ) (b : Bucket)
    → b.last_refill_ms ≤ t
    → (refill config t b).last_refill_ms ≡ t
unfolding refill
last_refill-refill config t b h = ground arith

pub refill_self :
    (config : RateLimitConfig) (t : ℕ) (b : Bucket) → b.last_refill_ms ≡ t → refill config t b ≡ b
unfolding refill
refill_self config t b h = ground arith
