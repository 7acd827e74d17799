-- ===== src/Audit/Tests.antt =====
-- audit-log.ts: tests, and the theorems at a concrete log.
use pdatahub.Audit.{
  AuditEntry, AuditTable, AuditQueryOptions, approved, query, selects, filter_text, filter_decision,
  filter_since, decision_text, limit_to, row_to_entry, append, has_entry, get_by_error_code,
}
use pdatahub.Prelude.{◌≡◌, sort_desc, String, ℕ, map, [], none, some, refl, err, ◌∷◌}

abbrev entry : String → ℕ → String → AuditEntry
entry id at agent = record {
  id = id;
  timestamp = at;
  input = record {
    agent_id = agent;
    user_id = "local-user";
    tool_name = "gmail.search";
    plugin = "gmail";
    scope = "gmail.read";
    justification = none;
    decision = approved;
    grant_id = none;
    duration_ms = 3;
    error = some "";
    delegated_by = none;
    delegated_to = none;
    decision_federated = none;
    error_class = none;
    error_code = some "AUTH_EXPIRED";
    actor_type = none;
    actor_id = none;
    request_id = none;
  };
}

abbrev log : AuditTable
log = entry "a" 10 "claude" ∷ entry "b" 20 "gpt" ∷ entry "c" 30 "claude" ∷ []

abbrev options : AuditQueryOptions
options = record {
  agent_id = some "claude";
  user_id = some "";
  tool_name = none;
  decision = some approved;
  limit = some 1;
  since = some 5;
}

newest : map (λ r. r.id) (query options log) ≡ "c" ∷ []
unfolding query selects filter_text filter_decision filter_since decision_text limit_to row_to_entry
    sort_desc
newest = refl

by_code : map (λ r. r.id) (get_by_error_code "AUTH_EXPIRED" (some 2) log) ≡ "c" ∷ "b" ∷ []
unfolding get_by_error_code limit_to row_to_entry sort_desc
by_code = refl

taken : append (entry "a" 40 "gpt").input "a" 40 log ≡ err "UNIQUE constraint failed: audit_log.id"
unfolding append has_entry
taken = refl
