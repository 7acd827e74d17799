-- ===== src/Nonces/Tests.antt =====
-- nonces.ts: tests, and the theorems at concrete tables.
use pdatahub.Nonces.{
  NonceTable, record_nonce, is_seen_recently, has_id, sweep, List, [], insert_or_ignore,
}
use pdatahub.Prelude.{arith, ◌∷◌, ◌≡◌, true, false, refl, []}
use pdatahub.Nonces.History.{
  Attempt, IsOrdered, IsOffEdge, verdicts, spec_verdicts, verdicts-refine-history, accepted_at_edge,
  admit, accepted_within,
}

abbrev table : NonceTable
table =
    record { request_id = "a"; seen_at = 1000 } ∷ record { request_id = "b"; seen_at = 2000 } ∷ []

record_sweeps_old :
    record_nonce "c" 601500 table
    ≡ record { request_id = "b"; seen_at = 2000 }
      ∷ record { request_id = "c"; seen_at = 601500 }
      ∷ []
unfolding record_nonce sweep insert_or_ignore has_id
record_sweeps_old = refl

abbrev calls : List Attempt
calls = ("a", 5) ∷ ("a", 6) ∷ ("b", 7) ∷ ("a", 600004) ∷ ("a", 600006) ∷ []

calls-IsOrdered : IsOrdered 0 calls
calls-IsOrdered = omega arith

calls-IsOffEdge : IsOffEdge calls []
unfolding IsOffEdge accepted_at_edge accepted_within
calls-IsOffEdge = (refl, (refl, (refl, (refl, (refl, tt)))))

verdicts-refine-history_example : verdicts calls [] ≡ spec_verdicts calls []
verdicts-refine-history_example = verdicts-refine-history calls calls-IsOrdered calls-IsOffEdge

calls-verdicts : verdicts calls [] ≡ true ∷ false ∷ true ∷ false ∷ true ∷ []
unfolding verdicts admit record_nonce is_seen_recently sweep insert_or_ignore has_id
calls-verdicts = refl
