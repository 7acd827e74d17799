-- ===== src/RateLimit/Retry.antt =====
-- rate-limit.ts: the wait that a refusal asks for.
use native.Mathlib.Nat.{div-lt_iff_lt-mul}
use pdatahub.RateLimit.{
  RateLimitConfig, token, Bucket, RateLimiter, Verdict, allowed, denied, refill, draw, ceil_div,
  consume, bucket_at,
}
use pdatahub.Prelude.{
  true, false, Bool, ℕ, ◌≤◌, ◌<◌, leb, ◌↔◌, ◌≡◌, arith, ◌*◌, ◌+◌, ◌-◌, ◌/◌, ◌∙◌, eq_refl, sym,
}
use pdatahub.RateLimit.Consume.{
  IsValid, Call, bucket_of, left_by, verdict-consume, last_refill-left_by, config-consume,
  bucket_at-consume,
}

abbrev pub is_allowed : Verdict → Bool
is_allowed (allowed n) = true
is_allowed (denied n) = false

leb-iff-eq : (a b c d : ℕ) → (a ≤ b → c ≤ d) → (c ≤ d → a ≤ b) → leb a b ≡ leb c d
leb-iff-eq a b c d f g = ground arith

-- `Math.ceil(a / b) <= d` exactly if `a <= d * b`.
pub ceil_div-le : (a b d : ℕ) → 0 < b → (ceil_div a b ≤ d) ↔ (a ≤ d * b)
unfolding ceil_div
ceil_div-le a b d h =
    let below : ((a + (b - 1)) / b < d + 1) ↔ (a + (b - 1) < (d + 1) * b) = div-lt_iff_lt-mul h in
    (λ le. omega (arith, below.0 (omega arith)), λ le. omega (arith, below.1 (omega arith)))

-- After a refusal at `t` a bucket grants a call exactly from the computed wait on.
draw_after :
    (config : RateLimitConfig) (b : Bucket) (t r d : ℕ)
    → b.last_refill_ms ≡ t
    → 0 < config.per_minute
    → 0 < config.burst_capacity
    → (draw config b).1 ≡ denied r
    → is_allowed (draw config (refill config (t + d) b)).1 ≡ leb r d
unfolding draw refill
draw_after config b t r d e p q h =
    ground (arith, ceil_div-le (token - b.tokens) config.per_minute d p)

draw_again :
    (config : RateLimitConfig) (b : Bucket) (r : ℕ)
    → (draw config b).1 ≡ denied r
    → (draw config (draw config b).0).1 ≡ denied r
unfolding draw
draw_again config b r h = ground arith

-- A refusal leaves a bucket that refuses again.
denied_again :
    (c : Call) (rl : RateLimiter) {r : ℕ}
    → (consume c.key c.route_class c.at rl).1 ≡ denied r
    → (draw rl.config (left_by c rl)).1 ≡ denied r
unfolding left_by
denied_again c rl {r} h = draw_again rl.config _ r (sym (verdict-consume c rl) ∙ h)

-- The wait in a refusal is exact: after a call is refused at `c.at` with `retryAfterMs` = `r`, the
-- next call on the same bucket, `d` milliseconds later, is allowed if and only if `r` is at most
-- `d`. The limiter is valid, and refills and holds something.
pub retry_exact :
    (c : Call) (now r d : ℕ) (rl : RateLimiter)
    → IsValid now rl
    → now ≤ c.at
    → 0 < rl.config.per_minute
    → 0 < rl.config.burst_capacity
    → (consume c.key c.route_class c.at rl).1 ≡ denied r
    → is_allowed (consume c.key c.route_class (c.at + d) (consume c.key c.route_class c.at rl).0).1
      ≡ leb r d
retry_exact c now r d rl v le p q h =
    let rl' = (consume c.key c.route_class c.at rl).0 in
    let c' : Call = record c { at = c.at + d } in
    let b = left_by c rl in
    let found : bucket_at rl' (bucket_of c) (c.at + d) ≡ b =
      bucket_at-consume c rl (bucket_of c) (c.at + d) ∙ rw (eq_refl (bucket_of c)) in
    let stays : (draw rl.config b).1 ≡ denied r = denied_again c rl h in
    let time : b.last_refill_ms ≡ c.at = last_refill-left_by now rl v c le in
    rw (verdict-consume c' rl', found, config-consume c rl)
      (draw_after rl.config b c.at r d time p q stays)
