-- ===== src/Federation/Limit.antt =====
-- packages/hub-core/src/server.ts, `checkFederatedRateLimit`: ten calls in a minute for each peer and
-- agent. The map `federatedRateLimits` holds the times of recent calls, oldest first. `now - 60_000`
-- is moved to the other side of each comparison.
pub mod Window
mod Tests
use pdatahub.Prelude.{
  ltb, leb, keep, Dict, lookup, insert, str_append, [], none, some, ℕ, List, String, ◌+◌, ◌∷◌,
  Option, if◌then◌else◌, length, ◌-◌, ◌++◌,
}

abbrev pub window_ms : ℕ
window_ms = 60000

abbrev pub max_calls : ℕ
max_calls = 10

abbrev pub CallTimes : Type 0
CallTimes = Dict (List ℕ)

unfoldable pub limit_key : String → String → String
limit_key peer agent = str_append peer (str_append ":" agent)

unfoldable pub existing : String → CallTimes → List ℕ
existing key limits = elim (lookup key limits) [ none ↦ [] | some times ↦ times ]

-- `t > cutoff`
unfoldable pub fresh : ℕ → List ℕ → List ℕ
fresh now = keep (λ t. ltb now (t + window_ms))

abbrev pub oldest : List ℕ → ℕ → ℕ
oldest [] now = now
oldest (t ∷ ts) now = t

-- The new map, and the wait in milliseconds if the call is refused.
unfoldable pub check_federated_rate_limit : String → ℕ → CallTimes → CallTimes × Option ℕ
check_federated_rate_limit key now limits =
    let recent = fresh now (existing key limits) in
    if leb max_calls (length recent)
    then (insert key recent limits, some (oldest recent now + window_ms - now))
    else (insert key (recent ++ now ∷ []) limits, none)
