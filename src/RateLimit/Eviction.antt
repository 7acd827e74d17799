-- ===== src/RateLimit/Eviction.antt =====
-- rate-limit.ts: deleting idle buckets changes no verdict, if an idle bucket would be full again.
use native.Mathlib.Nat.{mul-le-mul_right}
use pdatahub.RateLimit.{RateLimitConfig, token, Bucket, RateLimiter, refill, is_idle, evict_idle}
use pdatahub.Prelude.{
  List, ℕ, ◌≡◌, ◌*◌, ◌≤◌, String, ◌+◌, arith, ◌<◌, ◌-◌, none, some, inl, inr, IsKeyed, Option-cases,
  lookup, if◌then◌else◌, ◌⊎◌, leb, not, Bool-cases, lookup-keep, keep-IsKeyed,
}
use pdatahub.RateLimit.Consume.{IsValid, available, available_new, available_old, Call}
use pdatahub.RateLimit.Alike.{Alike, verdicts, IsFrom, verdicts-Alike}

-- An idle bucket is full by the time of any later call.
refill_idle :
    (config : RateLimitConfig) (b : Bucket) (ttl now t : ℕ)
    → config.burst_capacity * token ≤ ttl * config.per_minute
    → b.last_refill_ms + ttl < now
    → now ≤ t
    → (refill config t b).tokens ≡ config.burst_capacity * token
unfolding refill
refill_idle config b ttl now t slow idle le =
    let enough : ttl * config.per_minute ≤ (t - b.last_refill_ms) * config.per_minute =
      mul-le-mul_right config.per_minute (omega arith) in
    ground arith

lookup-evict :
    (now : ℕ) (rl : RateLimiter) (k : String)
    → IsKeyed rl.buckets
    → lookup k (evict_idle now rl).0.buckets ≡ (
        if leb rl.ttl_ms 0 then lookup k rl.buckets else elim (lookup k rl.buckets) [
          | none ↦ none
          | some b ↦ if not (is_idle rl now b) then some b else none
        ])
unfolding evict_idle
lookup-evict now rl k h = elim (Bool-cases (leb rl.ttl_ms 0)) [
  | inl off ↦ rw off
  | inr on ↦ rw on (lookup-keep (λ b. not (is_idle rl now b)) k rl.buckets h)
]

config-evict : (now : ℕ) (rl : RateLimiter) → (evict_idle now rl).0.config ≡ rl.config
unfolding evict_idle
config-evict now rl = ground arith

-- An entry stays as it is, or it was idle and goes.
evict_cases :
    (now : ℕ) (rl : RateLimiter) (k : String) {b : Bucket}
    → IsKeyed rl.buckets
    → lookup k rl.buckets ≡ some b
    → (lookup k (evict_idle now rl).0.buckets ≡ some b)
      ⊎ ((lookup k (evict_idle now rl).0.buckets ≡ none) × (b.last_refill_ms + rl.ttl_ms < now))
unfolding is_idle
evict_cases now rl k {b} h e = ground (arith, lookup-evict now rl k h)

evict_none :
    (now : ℕ) (rl : RateLimiter) (k : String)
    → IsKeyed rl.buckets
    → lookup k rl.buckets ≡ none
    → lookup k (evict_idle now rl).0.buckets ≡ none
evict_none now rl k h e = ground (arith, lookup-evict now rl k h)

lookup_of_evict :
    (now : ℕ) (rl : RateLimiter) (k : String) {b : Bucket}
    → IsKeyed rl.buckets
    → lookup k (evict_idle now rl).0.buckets ≡ some b
    → lookup k rl.buckets ≡ some b
lookup_of_evict now rl k h e = ground (arith, lookup-evict now rl k h)

IsKeyed-evict :
    (now : ℕ) (rl : RateLimiter) → IsKeyed rl.buckets → IsKeyed (evict_idle now rl).0.buckets
unfolding evict_idle
IsKeyed-evict now rl h = elim (Bool-cases (leb rl.ttl_ms 0)) [
  | inl off ↦ rw off h
  | inr on ↦ rw on (keep-IsKeyed (λ e. not (is_idle rl now e.1)) rl.buckets h)
]

module _ (now : ℕ) (rl : RateLimiter) (v : IsValid now rl) where
  pub evict_idle-IsValid : IsValid now (evict_idle now rl).0
  evict_idle-IsValid = record {
    keyed = IsKeyed-evict now rl v.keyed;
    bounded =
        λ k b e. rw (config-evict now rl) (v.bounded k b (lookup_of_evict now rl k v.keyed e));
    timely = λ k b e. v.timely k b (lookup_of_evict now rl k v.keyed e);
  }

  module _ (slow : rl.config.burst_capacity * token ≤ rl.ttl_ms * rl.config.per_minute) where
    available-evict :
        (k : String) (t : ℕ) → now ≤ t → available (evict_idle now rl).0 k t ≡ available rl k t
    available-evict k t le =
        let rl' = (evict_idle now rl).0 in
        elim (Option-cases (lookup k rl.buckets)) [
          | inl new ↦ ground (
            arith,
            available_new rl k t new,
            available_new rl' k t (evict_none now rl k v.keyed new),
            config-evict now rl,
          )
          | inr (b, old) ↦ elim (evict_cases now rl k v.keyed old) [
            | inl stays ↦
                ground (
                  arith,
                  available_old rl k t old,
                  available_old rl' k t stays,
                  config-evict now rl,
                )
            | inr (gone, idle) ↦ ground (
              arith,
              available_old rl k t old,
              available_new rl' k t gone,
              config-evict now rl,
              refill_idle rl.config b rl.ttl_ms now t slow idle le,
            )
          ]
        ]

    evict_idle-Alike : Alike now (evict_idle now rl).0 rl
    evict_idle-Alike = record { config = config-evict now rl; available = available-evict }

-- Deleting the idle buckets of a valid limiter changes no verdict on any later sequence of calls,
-- if a bucket refills completely within the idle time: a burst is at most what `ttlMs` refills.
pub evict_idle-invisible :
    (calls : List Call) (now : ℕ) (rl : RateLimiter)
    → IsValid now rl
    → rl.config.burst_capacity * token ≤ rl.ttl_ms * rl.config.per_minute
    → IsFrom now calls
    → verdicts calls (evict_idle now rl).0 ≡ verdicts calls rl
evict_idle-invisible calls now rl v slow d =
    verdicts-Alike calls now (evict_idle now rl).0 rl (evict_idle-IsValid now rl v) v
      (evict_idle-Alike now rl v slow) d
