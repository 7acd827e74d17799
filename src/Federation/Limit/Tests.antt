-- ===== src/Federation/Limit/Tests.antt =====
-- The rate limit of federated calls: tests, and the theorem at concrete calls.
use pdatahub.Federation.Limit.{max_calls, existing, fresh, check_federated_rate_limit}
use pdatahub.Federation.Limit.Window.{KeyedCall, in_minute, let_through, in_minute-let_through}
use pdatahub.Prelude.{◌≡◌, lookup, insert, arith, [], some, refl, List, ◌∷◌, ◌≤◌}

abbrev calls : List KeyedCall
calls =
    ("p:a", 0)
    ∷ ("p:a", 1)
    ∷ ("p:a", 2)
    ∷ ("p:a", 3)
    ∷ ("p:a", 4)
    ∷ ("p:a", 5)
    ∷ ("q:a", 5)
    ∷ ("p:a", 6)
    ∷ ("p:a", 7)
    ∷ ("p:a", 8)
    ∷ ("p:a", 9)
    ∷ ("p:a", 10)
    ∷ ("p:a", 60000)
    ∷ ("p:a", 60001)
    ∷ []

eleventh_waits :
    (check_federated_rate_limit "k" 10 (("k", 5 ∷ 5 ∷ 5 ∷ 5 ∷ 5 ∷ 5 ∷ 5 ∷ 5 ∷ 5 ∷ 5 ∷ []) ∷ [])).1
    ≡ some 59995
unfolding check_federated_rate_limit existing fresh lookup
eleventh_waits = refl

calls-let_through :
    let_through "p:a" calls [] ≡ 0 ∷ 1 ∷ 2 ∷ 3 ∷ 4 ∷ 5 ∷ 6 ∷ 7 ∷ 8 ∷ 9 ∷ 60000 ∷ 60001 ∷ []
unfolding let_through check_federated_rate_limit existing fresh lookup insert
calls-let_through = refl

in_minute-let_through_example : in_minute 0 (let_through "p:a" calls []) ≤ max_calls
in_minute-let_through_example = in_minute-let_through "p:a" 0 calls (omega arith)
