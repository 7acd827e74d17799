-- ===== src/Grants/Tests.antt =====
-- grant-store.ts: tests, and the theorems at a concrete table.
use pdatahub.Grants.{
  GrantRow, GrantTable, MatchKey, CreateInput, create, new_row, row_to_grant, find_active, matches,
  is_active, revoke, has_grant, list_active_for_user, mark_revoked,
}
use pdatahub.Grants.Find.{IsAnswer, find_active-IsAnswer}
use pdatahub.Prelude.{
  sort_desc, ◌≡◌, [], none, some, refl, ok, String, ◌∷◌, Option, map, ◌++◌, ℕ, ◌+◌,
}

abbrev row : String → ℕ → Option String → GrantRow
row id at hub = record {
  grant_id = id;
  tool_name = "gmail.search";
  plugin = "gmail";
  scope = "gmail.read";
  agent_id = "claude";
  user_id = "owner";
  created_at = at;
  expires_at = at + 1000;
  revoked = 0;
  delegated_by = hub;
}

abbrev table : GrantTable
table = row "g1" 100 none ∷ row "g2" 200 (some "bob") ∷ row "g3" 300 none ∷ []

abbrev key : Option String → MatchKey
key hub = record {
  tool_name = "gmail.search";
  plugin = "gmail";
  agent_id = "claude";
  delegated_by = hub;
}

newest_local : find_active (key none) 500 table ≡ some (row_to_grant (row "g3" 300 none))
unfolding find_active matches is_active row_to_grant sort_desc
newest_local = refl

bobs : find_active (key (some "bob")) 500 table ≡ some (row_to_grant (row "g2" 200 (some "bob")))
unfolding find_active matches is_active row_to_grant sort_desc
bobs = refl

nobodys : find_active (key (some "eve")) 500 table ≡ none
unfolding find_active matches is_active sort_desc
nobodys = refl

listed : map (λ g. g.grant_id) (list_active_for_user "owner" 1150 table) ≡ "g3" ∷ "g2" ∷ []
unfolding list_active_for_user is_active row_to_grant sort_desc
listed = refl

find_active-IsAnswer_example : IsAnswer (key none) 500 table (row_to_grant (row "g3" 300 none))
find_active-IsAnswer_example =
    find_active-IsAnswer (key none) 500 table (row_to_grant (row "g3" 300 none)) newest_local

abbrev input : CreateInput
input = record {
  tool_name = "gmail.search";
  plugin = "gmail";
  scope = "gmail.read";
  agent_id = "claude";
  user_id = "owner";
  expires_at = 2000;
  delegated_by = some "bob";
}

grown :
    create input "g4" 600 table
    ≡ ok (row_to_grant (new_row input "g4" 600), table ++ new_row input "g4" 600 ∷ [])
unfolding create has_grant
grown = refl

next_local :
    find_active (key none) 500 (revoke "g3" table).0 ≡ some (row_to_grant (row "g1" 100 none))
unfolding find_active matches is_active row_to_grant sort_desc revoke mark_revoked
next_local = refl
