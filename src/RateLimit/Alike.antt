-- ===== src/RateLimit/Alike.antt =====
-- rate-limit.ts: limiters whose buckets offer the same tokens give the same verdicts.
use pdatahub.RateLimit.{
  RateLimitConfig, Bucket, RateLimiter, Verdict, refill, draw, bucket_at, consume,
}
use pdatahub.Prelude.{[], List, ℕ, ◌∷◌, ◌≡◌, ◌≤◌, String, arith, sym, ◌∙◌, refl, ap₂}
use pdatahub.RateLimit.Consume.{
  IsValid, available, available_lem, Call, bucket_of, left_by, bucket_at-consume, config-consume,
  verdict-consume, last_refill-left_by, consume-IsValid,
}

-- The verdicts on a sequence of calls.
unfoldable pub verdicts : List Call → RateLimiter → List Verdict
verdicts [] rl = []
verdicts (c ∷ rest) rl =
    let (rl', verdict) = consume c.key c.route_class c.at rl in verdict ∷ verdicts rest rl'

-- Times that do not fall, from `start` on.
abbrev pub IsFrom : ℕ → List Call → Type 0
IsFrom start [] = Unit
IsFrom start (c ∷ rest) = (start ≤ c.at) × IsFrom c.at rest

-- What the verdicts depend on.
pub record Alike (now : ℕ) (a b : RateLimiter) : Type 0 where
  pub config : a.config ≡ b.config
  pub available : (k : String) (t : ℕ) → now ≤ t → available a k t ≡ available b k t

draw_cong :
    (config config' : RateLimitConfig) (a b : Bucket)
    → config ≡ config'
    → a.tokens ≡ b.tokens
    → ((draw config a).1 ≡ (draw config' b).1)
      × ((draw config a).0.tokens ≡ (draw config' b).0.tokens)
unfolding draw
draw_cong config config' a b e f = (ground arith, ground arith)

refill_cong :
    (config config' : RateLimitConfig) (t : ℕ) (a b : Bucket)
    → config ≡ config'
    → a.tokens ≡ b.tokens
    → a.last_refill_ms ≡ b.last_refill_ms
    → (refill config t a).tokens ≡ (refill config' t b).tokens
unfolding refill
refill_cong config config' t a b e f g = ground arith

module _ (now : ℕ) (a b : RateLimiter) (va : IsValid now a) (vb : IsValid now b) (s : Alike now a b)
    (c : Call) (le : now ≤ c.at) where
  found :
      (refill a.config c.at (bucket_at a (bucket_of c) c.at)).tokens
      ≡ (refill b.config c.at (bucket_at b (bucket_of c) c.at)).tokens
  found =
      sym (available_lem a (bucket_of c) c.at)
      ∙ s.available (bucket_of c) c.at le
      ∙ available_lem b (bucket_of c) c.at

  same_verdict : (consume c.key c.route_class c.at a).1 ≡ (consume c.key c.route_class c.at b).1
  same_verdict =
      verdict-consume c a
      ∙ (draw_cong a.config b.config _ _ s.config found).0
      ∙ sym (verdict-consume c b)

  same_left : (left_by c a).tokens ≡ (left_by c b).tokens
  unfolding left_by
  same_left = (draw_cong a.config b.config _ _ s.config found).1

  same_later :
      (k : String) (t : ℕ)
      → c.at ≤ t
      → available (consume c.key c.route_class c.at a).0 k t
        ≡ available (consume c.key c.route_class c.at b).0 k t
  same_later k t later = ground (
    arith,
    available_lem (consume c.key c.route_class c.at a).0 k t,
    available_lem (consume c.key c.route_class c.at b).0 k t,
    bucket_at-consume c a k t,
    bucket_at-consume c b k t,
    config-consume c a,
    config-consume c b,
    available_lem a k t,
    available_lem b k t,
    s.available k t (omega arith),
    refill_cong a.config b.config t (left_by c a) (left_by c b) s.config same_left
        (last_refill-left_by now a va c le ∙ sym (last_refill-left_by now b vb c le)),
  )

  consume-Alike :
      Alike c.at (consume c.key c.route_class c.at a).0 (consume c.key c.route_class c.at b).0
  consume-Alike = record {
    config = config-consume c a ∙ s.config ∙ sym (config-consume c b);
    available = λ k t later. same_later k t later;
  }

pub verdicts-Alike :
    (calls : List Call) (now : ℕ) (a b : RateLimiter)
    → IsValid now a
    → IsValid now b
    → Alike now a b
    → IsFrom now calls
    → verdicts calls a ≡ verdicts calls b
unfolding verdicts
verdicts-Alike [] now a b va vb s d = refl
verdicts-Alike (c ∷ rest) now a b va vb s d =
    let later =
      verdicts-Alike rest c.at (consume c.key c.route_class c.at a).0
        (consume c.key c.route_class c.at b).0 (consume-IsValid now a va c d.0)
        (consume-IsValid now b vb c d.0) (consume-Alike now a b va vb s c d.0) d.1 in
    ap₂ (λ v vs. v ∷ vs) (same_verdict now a b va vb s c d.0) later
