-- ===== src/RateLimit/Tests.antt =====
-- rate-limit.ts: tests, and the theorems at concrete limiters.
use pdatahub.RateLimit.{
  RateLimiter, allowed, denied, default_rate_limit, token, consume, evict_idle, bucket_at,
  bucket_key, refill, draw, ceil_div, is_idle, new_rate_limiter,
}
use pdatahub.RateLimit.Consume.{IsValid, Call}
use pdatahub.RateLimit.Capacity.{granted_on, granted-le-burst}
use pdatahub.RateLimit.Alike.{verdicts}
use pdatahub.RateLimit.Eviction.{evict_idle-invisible}
use pdatahub.Prelude.{
  [], some, refl, ok, err, ◌∷◌, lookup, ℕ, List, ◌*◌, ◌≡◌, arith, insert, ◌≤◌, ◌+◌, ◌-◌,
}
use pdatahub.RateLimit.Route.{
  route_class_for, client_ip, trim, trim_start, trim_end, first_field, is_space,
}

abbrev small : RateLimiter
small = record {
  buckets = ("1.2.3.4|other", record { tokens = 30000; last_refill_ms = 1000 }) ∷ [];
  config = record { per_minute = 60; burst_capacity = 2 };
  ttl_ms = 300000;
}

small-IsValid : IsValid 1000 small
small-IsValid = record {
  keyed = (unfold lookup in refl, tt);
  bounded = λ k b e. unfold lookup in ground arith;
  timely = λ k b e. unfold lookup in ground arith;
}

abbrev call : ℕ → Call
call t = record { key = "1.2.3.4"; route_class = "other"; at = t }

abbrev calls : List Call
calls = call 1000 ∷ call 1600 ∷ call 1700 ∷ []

calls-verdicts : verdicts calls small ≡ denied 500 ∷ allowed 0 ∷ denied 800 ∷ []
unfolding verdicts consume bucket_at bucket_key refill draw ceil_div lookup insert
calls-verdicts = refl

refused : (consume "1.2.3.4" "other" 1000 small).1 ≡ denied 500
unfolding consume bucket_at bucket_key refill draw ceil_div lookup
refused = refl

granted-le-burst_example :
    token * granted_on "1.2.3.4|other" calls small ≤ 2 * token + (1700 - 1000) * 60
granted-le-burst_example =
    granted-le-burst "1.2.3.4|other" calls 1000 1700 small small-IsValid (omega arith)

abbrev later_calls : List Call
later_calls = call 400000 ∷ call 400001 ∷ []

small-IsValid_later : IsValid 400000 small
small-IsValid_later = record {
  keyed = (unfold lookup in refl, tt);
  bounded = small-IsValid.bounded;
  timely = λ k b e. omega (arith, small-IsValid.timely k b e);
}

evict_idle-invisible_example :
    verdicts later_calls (evict_idle 400000 small).0 ≡ verdicts later_calls small
evict_idle-invisible_example =
    evict_idle-invisible later_calls 400000 small small-IsValid_later (omega arith) (omega arith)

evicted : (evict_idle 400000 small).1 ≡ 1
unfolding evict_idle is_idle
evicted = refl

zero_rate :
    new_rate_limiter (record { per_minute = 0; burst_capacity = 5 }) 1000
    ≡ err "perMinute must be > 0"
unfolding new_rate_limiter
zero_rate = refl

default_accepted :
    new_rate_limiter default_rate_limit 300000
    ≡ ok (record { buckets = []; config = default_rate_limit; ttl_ms = 300000 })
unfolding new_rate_limiter
default_accepted = refl

first_hop : client_ip (some " 9.9.9.9 , 10.0.0.1") (some "127.0.0.1") ≡ "9.9.9.9"
unfolding client_ip trim trim_start trim_end first_field is_space
first_hop = refl

no_hop : client_ip (some " , 10.0.0.1") (some "127.0.0.1") ≡ "127.0.0.1"
unfolding client_ip trim trim_start trim_end first_field is_space
no_hop = refl

classes :
    (route_class_for "POST" "/v1/tools/x/call" ≡ "tool-call")
    × (route_class_for "GET" "/v1/tools" ≡ "other")
unfolding route_class_for
classes = (refl, refl)
