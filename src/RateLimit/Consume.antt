-- ===== src/RateLimit/Consume.antt =====
-- rate-limit.ts: what `consume` does to each bucket, and the invariant of the limiter.
use pdatahub.Prelude.{
  ℕ, String, ◌+◌, lookup, ◌≤◌, ◌*◌, ◌≡◌, some, ◌-◌, arith, if◌then◌else◌, str_eq, inl, inr,
  Option-cases, none, lookup-insert, ◌∙◌, refl, Bool-cases, eq_iff, IsKeyed, insert-IsKeyed,
}
use pdatahub.RateLimit.{
  token, Bucket, RateLimiter, full, refill, draw, bucket_key, bucket_at, consume,
}
use pdatahub.RateLimit.Cost.{
  granted, refill_growth, refill_bounded, draw_cost, draw-le, last_refill-draw, last_refill-refill,
  refill_self,
}

-- Every bucket holds at most a burst and was last refilled by `now`; keys are distinct.
pub record IsValid (now : ℕ) (rl : RateLimiter) : Type 0 where
  pub keyed : IsKeyed rl.buckets
  pub bounded :
      (k : String) (b : Bucket)
      → lookup k rl.buckets ≡ some b
      → b.tokens ≤ rl.config.burst_capacity * token
  pub timely : (k : String) (b : Bucket) → lookup k rl.buckets ≡ some b → b.last_refill_ms ≤ now

-- What a call on bucket `k` would find at `now`, in units.
unfoldable pub available : RateLimiter → String → ℕ → ℕ
available rl k now = (refill rl.config now (bucket_at rl k now)).tokens

pub record Call : Type 0 where
  pub key : String
  pub route_class : String
  pub at : ℕ

abbrev pub bucket_of : Call → String
bucket_of c = bucket_key c.key c.route_class

pub bucket_at_new :
    (rl : RateLimiter) (k : String) (now : ℕ)
    → lookup k rl.buckets ≡ none
    → bucket_at rl k now ≡ full rl.config now
unfolding bucket_at
bucket_at_new rl k now e = ground arith

pub bucket_at_old :
    (rl : RateLimiter) (k : String) (now : ℕ) {b : Bucket}
    → lookup k rl.buckets ≡ some b
    → bucket_at rl k now ≡ b
unfolding bucket_at
bucket_at_old rl k now e = ground arith

pub bucket_at-cong :
    (rl rl' : RateLimiter) (k : String) (t : ℕ)
    → rl.config ≡ rl'.config
    → lookup k rl.buckets ≡ lookup k rl'.buckets
    → bucket_at rl k t ≡ bucket_at rl' k t
unfolding bucket_at
bucket_at-cong rl rl' k t c e = ground arith

-- The bucket that a call leaves behind.
unfoldable pub left_by : Call → RateLimiter → Bucket
left_by c rl = (draw rl.config (refill rl.config c.at (bucket_at rl (bucket_of c) c.at))).0

pub lookup-consume :
    (c : Call) (rl : RateLimiter) (k : String)
    → lookup k (consume c.key c.route_class c.at rl).0.buckets
      ≡ (if str_eq (bucket_of c) k then some (left_by c rl) else lookup k rl.buckets)
unfolding consume left_by
lookup-consume c rl k = lookup-insert (bucket_of c) k (left_by c rl) rl.buckets

pub config-consume :
    (c : Call) (rl : RateLimiter) → (consume c.key c.route_class c.at rl).0.config ≡ rl.config
unfolding consume
config-consume c rl = refl

pub verdict-consume :
    (c : Call) (rl : RateLimiter)
    → (consume c.key c.route_class c.at rl).1
      ≡ (draw rl.config (refill rl.config c.at (bucket_at rl (bucket_of c) c.at))).1
unfolding consume
verdict-consume c rl = refl

pub available_lem :
    (rl : RateLimiter) (k : String) (t : ℕ)
    → available rl k t ≡ (refill rl.config t (bucket_at rl k t)).tokens
unfolding available
available_lem rl k t = refl

pub tokens-left_by :
    (c : Call) (rl : RateLimiter)
    → (left_by c rl).tokens
        + token
          * granted (draw rl.config (refill rl.config c.at (bucket_at rl (bucket_of c) c.at))).1
      ≡ (refill rl.config c.at (bucket_at rl (bucket_of c) c.at)).tokens
unfolding left_by
tokens-left_by c rl = draw_cost rl.config _

-- A call changes its own bucket and no other.
pub bucket_at-consume :
    (c : Call) (rl : RateLimiter) (k : String) (t : ℕ)
    → bucket_at (consume c.key c.route_class c.at rl).0 k t
      ≡ (if str_eq (bucket_of c) k then left_by c rl else bucket_at rl k t)
bucket_at-consume c rl k t = elim (Bool-cases (str_eq (bucket_of c) k)) [
  | inl same ↦ rw same (bucket_at_old _ k t (lookup-consume c rl k ∙ rw same))
  | inr other ↦
      rw other (bucket_at-cong _ rl k t (config-consume c rl) (lookup-consume c rl k ∙ rw other))
]

pub available_new :
    (rl : RateLimiter) (k : String) (t : ℕ)
    → lookup k rl.buckets ≡ none
    → available rl k t ≡ rl.config.burst_capacity * token
unfolding available bucket_at full refill
available_new rl k t e = ground arith

pub available_old :
    (rl : RateLimiter) (k : String) (t : ℕ) {b : Bucket}
    → lookup k rl.buckets ≡ some b
    → available rl k t ≡ (refill rl.config t b).tokens
unfolding available bucket_at
available_old rl k t e = ground arith

module _ (k : String) (now : ℕ) (rl : RateLimiter) (v : IsValid now rl) where
  bucket_at-IsBounded : (t : ℕ) → (bucket_at rl k t).tokens ≤ rl.config.burst_capacity * token
  bucket_at-IsBounded t = elim (Option-cases (lookup k rl.buckets)) [
    | inl new ↦ rw (bucket_at_new rl k t new) (unfold full in omega arith)
    | inr (b, old) ↦ rw (bucket_at_old rl k t old) (v.bounded k b old)
  ]

  bucket_at-IsTimely : (t : ℕ) → now ≤ t → (bucket_at rl k t).last_refill_ms ≤ t
  bucket_at-IsTimely t le = elim (Option-cases (lookup k rl.buckets)) [
    | inl new ↦ rw (bucket_at_new rl k t new) (unfold full in omega arith)
    | inr (b, old) ↦ rw (bucket_at_old rl k t old) (omega (arith, v.timely k b old))
  ]

  pub available-le-burst : available rl k now ≤ rl.config.burst_capacity * token
  unfolding available
  available-le-burst = refill_bounded rl.config (bucket_at rl k now) now (bucket_at-IsBounded now)

  pub available_growth :
      (later : ℕ)
      → now ≤ later
      → available rl k later ≤ available rl k now + (later - now) * rl.config.per_minute
  unfolding available
  available_growth later le = elim (Option-cases (lookup k rl.buckets)) [
    | inl new ↦ omega (arith, available_new rl k now new, available_new rl k later new)
    | inr (b, old) ↦ ground (
      arith,
      available_old rl k now old,
      available_old rl k later old,
      refill_growth rl.config b now later (v.timely k b old) le,
    )
  ]

module _ (now : ℕ) (rl : RateLimiter) (v : IsValid now rl) (c : Call) (le : now ≤ c.at) where
  pub last_refill-left_by : (left_by c rl).last_refill_ms ≡ c.at
  unfolding left_by
  last_refill-left_by =
      last_refill-draw _ _
      ∙ last_refill-refill rl.config c.at _ (bucket_at-IsTimely (bucket_of c) now rl v c.at le)

  pub left_by-IsBounded : (left_by c rl).tokens ≤ rl.config.burst_capacity * token
  unfolding left_by
  left_by-IsBounded = omega (
    arith,
    draw-le rl.config (refill rl.config c.at (bucket_at rl (bucket_of c) c.at)),
    refill_bounded rl.config (bucket_at rl (bucket_of c) c.at) c.at
        (bucket_at-IsBounded (bucket_of c) now rl v c.at),
  )

  pub consume-IsValid : IsValid c.at (consume c.key c.route_class c.at rl).0
  consume-IsValid = record {
    keyed = unfold consume in insert-IsKeyed (bucket_of c) _ rl.buckets v.keyed;
    bounded = λ j b e.
        ground
          (arith, lookup-consume c rl j, config-consume c rl, left_by-IsBounded, v.bounded j b);
    timely = λ j b e. ground (arith, lookup-consume c rl j, last_refill-left_by, v.timely j b);
  }

  -- The call pays for what it gets, and leaves the other buckets alone.
  pub available-consume :
      (k : String)
      → available (consume c.key c.route_class c.at rl).0 k c.at
          + token
            * (if str_eq (bucket_of c) k
                then granted (consume c.key c.route_class c.at rl).1
                else 0)
        ≤ available rl k c.at
  unfolding available
  available-consume k = ground (
    arith,
    available_lem (consume c.key c.route_class c.at rl).0 k c.at,
    available_lem rl k c.at,
    bucket_at-consume c rl k c.at,
    config-consume c rl,
    verdict-consume c rl,
    eq_iff (bucket_of c) k,
    refill_self rl.config c.at (left_by c rl) last_refill-left_by,
    tokens-left_by c rl,
  )
