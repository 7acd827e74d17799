-- ===== src/Grants/Ensure/Tests.antt =====
-- `ensureGrant`: tests, and the theorems at a concrete call.
use pdatahub.Grants.{
  GrantRow, create, new_row, row_to_grant, find_active, matches, is_active, has_grant, Grant,
}
use pdatahub.Grants.Find.{IsMatch}
use pdatahub.Grants.Ensure.{
  Approval, approved, denied, EnsureInput, EnsureContext, key_of, IsFor, grant_input,
  create_approved, after_approval, ensure_grant,
}
use pdatahub.Grants.Ensure.Outcome.{ensure_grant-IsFor, ensure_grant-asked_iff}
use pdatahub.Prelude.{sort_desc, ◌≡◌, ◌↔◌, [], none, some, true, false, refl, ok, ℕ, Memᴰ, ◌+◌}

abbrev call : EnsureInput
call = record {
  tool_name = "gmail.search";
  plugin = "gmail";
  agent_id = "claude";
  user_id = "owner";
  delegated_by = some "bob";
}

abbrev context : Approval → ℕ → EnsureContext
context answer t = record {
  now = t;
  answered_at = t + 20;
  approval = answer;
  meanwhile = λ rows. rows;
  tool_scope = none;
  new_id = "g1";
}

abbrev new_grant : Grant
new_grant = record {
  grant_id = "g1";
  tool_name = "gmail.search";
  plugin = "gmail";
  scope = "unknown";
  agent_id = "claude";
  user_id = "owner";
  created_at = 520;
  expires_at = 3600520;
  revoked = false;
  delegated_by = some "bob";
}

granted : (ensure_grant call (context approved 500) []).result ≡ ok new_grant
unfolding ensure_grant after_approval create_approved create has_grant find_active matches is_active
    sort_desc grant_input new_row row_to_grant
granted = refl

asked_first : (ensure_grant call (context approved 500) []).asked ≡ true
unfolding ensure_grant after_approval create_approved create has_grant find_active matches is_active
    sort_desc grant_input new_row row_to_grant
asked_first = refl

asked_denied : (ensure_grant call (context denied 500) []).asked ≡ true
unfolding ensure_grant after_approval create_approved create has_grant find_active matches is_active
    sort_desc grant_input new_row row_to_grant
asked_denied = refl

ensure_grant-IsFor_example :
    IsFor call new_grant
    × ((ensure_grant call (context approved 500) []).asked ≡ true → approved ≡ approved)
ensure_grant-IsFor_example = ensure_grant-IsFor call (context approved 500) [] new_grant granted

ensure_grant-asked_iff_example :
    ((ensure_grant call (context denied 500) []).asked ≡ true)
    ↔ ((r : GrantRow) → Memᴰ r [] → ¬ IsMatch (key_of call) 500 r)
ensure_grant-asked_iff_example = ensure_grant-asked_iff call (context denied 500) []
