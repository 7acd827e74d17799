-- ===== src/Federation/Limit/Window.antt =====
-- `checkFederatedRateLimit`: no minute has more than ten calls.
use pdatahub.Federation.Limit.{
  window_ms, max_calls, CallTimes, existing, fresh, check_federated_rate_limit,
}
use mathlib.Core.List.{append-nil, append_assoc}
use pdatahub.Prelude.{
  ◌≡◌, arith, [], none, some, refl, ℕ, String, List, length, ◌∷◌, ◌≤◌, ◌<◌, ◌++◌, keep,
  if◌then◌else◌, length-keep, ◌+◌, leb, str_eq, ◌&&◌, ltb, insert, lookup-insert, inl, inr,
  Option-cases, Bool-cases, eq_iff,
}

-- How many of the times are not before `s`, and how many lie in the minute that begins at `s`.
unfoldable pub count_from : ℕ → List ℕ → ℕ
count_from s times = length (keep (leb s) times)

unfoldable pub in_minute : ℕ → List ℕ → ℕ
in_minute s times = length (keep (λ t. leb s t && ltb t (s + window_ms)) times)

-- A call with its key and its time.
abbrev pub KeyedCall : Type 0
KeyedCall = String × ℕ

-- The times of the calls on `k` that are let through.
unfoldable pub let_through : String → List KeyedCall → CallTimes → List ℕ
let_through k [] limits = []
let_through k ((key, now) ∷ calls) limits =
    let (limits', wait) = check_federated_rate_limit key now limits in
    let rest = let_through k calls limits' in
    elim wait [ none ↦ if str_eq key k then now ∷ rest else rest | some ms ↦ rest ]

-- Times do not fall, from `start` on.
abbrev pub IsFrom : ℕ → List KeyedCall → Type 0
IsFrom start [] = Unit
IsFrom start (c ∷ calls) = (start ≤ c.1) × IsFrom c.1 calls

in_minute-le : (s : ℕ) (times : List ℕ) → in_minute s times ≤ count_from s times
unfolding in_minute count_from
in_minute-le s [] = omega arith
in_minute-le s (t ∷ times) = ground (arith, in_minute-le s times)

count_from-le : (s : ℕ) (times : List ℕ) → count_from s times ≤ length times
unfolding count_from
count_from-le s times = length-keep (leb s) times

count_from-fresh :
    (s now : ℕ) (times : List ℕ)
    → now < s + window_ms
    → count_from s (fresh now times) ≡ count_from s times
unfolding count_from fresh
count_from-fresh s now [] h = refl
count_from-fresh s now (t ∷ times) h = ground (arith, count_from-fresh s now times h)

count_from-append :
    (s t : ℕ) (times : List ℕ)
    → count_from s (times ++ t ∷ []) ≡ count_from s times + (if leb s t then 1 else 0)
unfolding count_from
count_from-append s t [] = ground arith
count_from-append s t (u ∷ times) = ground (arith, count_from-append s t times)

in_minute-append :
    (s t : ℕ) (times : List ℕ)
    → in_minute s (times ++ t ∷ [])
      ≡ in_minute s times + (if leb s t && ltb t (s + window_ms) then 1 else 0)
unfolding in_minute
in_minute-append s t [] = ground arith
in_minute-append s t (u ∷ times) = ground (arith, in_minute-append s t times)

-- Every recent call that was let through is in the map, and no minute has more than ten.
record IsBounded (k : String) (now : ℕ) (limits : CallTimes) (past : List ℕ) : Type 0 where
  stored : (s : ℕ) → now < s + window_ms → count_from s past ≤ count_from s (existing k limits)
  bounded : (s : ℕ) → in_minute s past ≤ max_calls

existing-insert :
    (key k : String) (times : List ℕ) (limits : CallTimes)
    → existing k (insert key times limits) ≡ (if str_eq key k then times else existing k limits)
unfolding existing
existing-insert key k times limits = ground (arith, lookup-insert key k times limits)

-- The map after a call, by its verdict.
refused_times :
    (key : String) (now : ℕ) (limits : CallTimes) {ms : ℕ}
    → (check_federated_rate_limit key now limits).1 ≡ some ms
    → (check_federated_rate_limit key now limits).0
      ≡ insert key (fresh now (existing key limits)) limits
unfolding check_federated_rate_limit
refused_times key now limits h = ground arith

let_through_times :
    (key : String) (now : ℕ) (limits : CallTimes)
    → (check_federated_rate_limit key now limits).1 ≡ none
    → ((check_federated_rate_limit key now limits).0
        ≡ insert key (fresh now (existing key limits) ++ now ∷ []) limits)
      × (length (fresh now (existing key limits)) < max_calls)
unfolding check_federated_rate_limit
let_through_times key now limits h = ground arith

module _ (k : String) {start : ℕ} (now : ℕ) (limits : CallTimes) (past : List ℕ) where
  idle-IsBounded :
      start ≤ now
      → IsBounded k start limits past
      → (limits' : CallTimes)
      → ((s : ℕ)
          → now < s + window_ms
          → count_from s (existing k limits') ≡ count_from s (existing k limits))
      → IsBounded k now limits' past
  idle-IsBounded le b limits' same = record {
    stored = λ s h. omega (arith, same s h, b.stored s (omega arith));
    bounded = b.bounded;
  }

  admitted-IsBounded :
      start ≤ now
      → IsBounded k start limits past
      → length (fresh now (existing k limits)) < max_calls
      → (limits' : CallTimes) → existing k limits' ≡ fresh now (existing k limits) ++ now ∷ []
      → IsBounded k now limits' (past ++ now ∷ [])
  admitted-IsBounded le b few limits' e =
      let recent = fresh now (existing k limits) in
      record {
        stored = λ s h. rw e (
            omega (
              arith,
              count_from-append s now past,
              count_from-append s now recent,
              count_from-fresh s now (existing k limits) h,
              b.stored s (omega arith),
            ));
        bounded = λ s. ground (
          arith,
          in_minute-append s now past,
          b.bounded s,
          in_minute-le s past,
          b.stored s,
          count_from-fresh s now (existing k limits),
          count_from-le s recent,
        );
      }

let_through-none :
    (k key : String) (now : ℕ) (calls : List KeyedCall) (limits : CallTimes)
    → (check_federated_rate_limit key now limits).1 ≡ none
    → let_through k ((key, now) ∷ calls) limits ≡ (
        if str_eq key k
        then now ∷ let_through k calls (check_federated_rate_limit key now limits).0
        else let_through k calls (check_federated_rate_limit key now limits).0)
unfolding let_through
let_through-none k key now calls limits h = ground (arith, h)

let_through-some :
    (k key : String) (now : ℕ) (calls : List KeyedCall) (limits : CallTimes) {ms : ℕ}
    → (check_federated_rate_limit key now limits).1 ≡ some ms
    → let_through k ((key, now) ∷ calls) limits
      ≡ let_through k calls (check_federated_rate_limit key now limits).0
unfolding let_through
let_through-some k key now calls limits h = ground (arith, h)

history :
    (k : String) (s start : ℕ) (calls : List KeyedCall) (limits : CallTimes) (past : List ℕ)
    → IsFrom start calls
    → IsBounded k start limits past
    → in_minute s (past ++ let_through k calls limits) ≤ max_calls
unfolding let_through
history k s start [] limits past o b = rw append-nil (b.bounded s)
history k s start ((key, now) ∷ calls) limits past o b =
    let limits' = (check_federated_rate_limit key now limits).0 in
    let recent = fresh now (existing key limits) in
    elim (Option-cases (check_federated_rate_limit key now limits).1) [
      | inl free ↦
          let (e, few) = let_through_times key now limits free in
          elim (Bool-cases (str_eq key k)) [
            | inl own ↦
                let same : key ≡ k = (eq_iff key k).0 own in
                let times = existing-insert key k (recent ++ now ∷ []) limits in
                rw (let_through-none k key now calls limits free, own)
                  (rw (← append_assoc past (now ∷ []) (let_through k calls limits')) (
                    history k s now calls limits' (past ++ now ∷ []) o.1 (
                      admitted-IsBounded k now limits past o.0 b (ground (arith, same, few)) limits'
                        (ground (arith, e, times, own, same)))))
            | inr other ↦
                rw (let_through-none k key now calls limits free, other)
                  (history k s now calls limits' past o.1 (
                    idle-IsBounded k now limits past o.0 b limits' (λ r h.
                      ground (arith, e, existing-insert key k (recent ++ now ∷ []) limits, other))))
          ]
      | inr (ms, busy) ↦
          let e = refused_times key now limits busy in
          rw (let_through-some k key now calls limits busy) (
            history k s now calls limits' past o.1 (
              idle-IsBounded k now limits past o.0 b limits' (λ r h. ground (
                arith,
                e,
                existing-insert key k recent limits,
                eq_iff key k,
                count_from-fresh r now (existing k limits) h,
              ))))
    ]

-- Whatever the calls on whatever keys, at clock times that do not fall, in every span of one minute at
-- most ten calls of one peer and agent are let through.
pub in_minute-let_through :
    (k : String) (s : ℕ) (calls : List KeyedCall)
    → IsFrom 0 calls
    → in_minute s (let_through k calls []) ≤ max_calls
in_minute-let_through k s calls o = history k s 0 calls [] [] o (
    unfold count_from in_minute existing in
    record { stored = λ r h. omega arith; bounded = λ r. omega arith })
