-- ===== src/Grants.antt =====
-- packages/hub-core/src/grant-store.ts: time-bounded grants, and their table `grants` as the list of
-- its rows. A time is the number of milliseconds whose ISO 8601 text the column holds.
pub mod Find
pub mod Validity
pub mod Ensure
mod Tests
use mathlib.Core.Option
use pdatahub.Prelude.{
  [], none, some, true, false, ok, err, String, List, ◌==◌, ℕ, Bool, Result, any, if◌then◌else◌,
  first, ◌&&◌, sort_desc, str_eq, ◌++◌, keep, leb, ltb, is_null_or_eq, ◌∷◌, Option, map,
}

pub record Grant : Type 0 where
  pub grant_id : String
  pub tool_name : String
  pub plugin : String
  pub scope : String
  pub agent_id : String
  pub user_id : String
  pub created_at : ℕ
  pub expires_at : ℕ
  pub revoked : Bool
  pub delegated_by : Option String

-- A row of the table, where `revoked` is the number 0 or 1.
pub record GrantRow : Type 0 where
  pub grant_id : String
  pub tool_name : String
  pub plugin : String
  pub scope : String
  pub agent_id : String
  pub user_id : String
  pub created_at : ℕ
  pub expires_at : ℕ
  pub revoked : ℕ
  pub delegated_by : Option String

abbrev pub GrantTable : Type 0
GrantTable = List GrantRow

unfoldable pub row_to_grant : GrantRow → Grant
row_to_grant row = record {
  grant_id = row.grant_id;
  tool_name = row.tool_name;
  plugin = row.plugin;
  scope = row.scope;
  agent_id = row.agent_id;
  user_id = row.user_id;
  created_at = row.created_at;
  expires_at = row.expires_at;
  revoked = row.revoked == 1;
  delegated_by = row.delegated_by;
}

-- The argument of `create`; an absent `delegated_by` is null.
pub record CreateInput : Type 0 where
  pub tool_name : String
  pub plugin : String
  pub scope : String
  pub agent_id : String
  pub user_id : String
  pub expires_at : ℕ
  pub delegated_by : Option String

unfoldable pub new_row : CreateInput → String → ℕ → GrantRow
new_row input id now = record {
  grant_id = id;
  tool_name = input.tool_name;
  plugin = input.plugin;
  scope = input.scope;
  agent_id = input.agent_id;
  user_id = input.user_id;
  created_at = now;
  expires_at = input.expires_at;
  revoked = 0;
  delegated_by = input.delegated_by;
}

unfoldable pub has_grant : String → GrantTable → Bool
has_grant id = any (λ r. str_eq r.grant_id id)

-- `GrantStore.create`, with the UUID drawn; an INSERT of a primary key that is taken throws.
unfoldable pub create : CreateInput → String → ℕ → GrantTable → Result (Grant × GrantTable)
create input id now rows =
    if has_grant id rows
    then err "UNIQUE constraint failed: grants.grant_id"
    else let row = new_row input id now in ok (row_to_grant row, rows ++ row ∷ [])

unfoldable pub get_by_id : String → GrantTable → Option Grant
get_by_id id rows = Option.map row_to_grant (first (keep (λ r. str_eq r.grant_id id) rows))

unfoldable pub mark_revoked : String → GrantTable → GrantTable
mark_revoked id = map (λ r. if str_eq r.grant_id id then record r { revoked = 1 } else r)

-- `GrantStore.revoke`: the new table, and whether a row was changed.
unfoldable pub revoke : String → GrantTable → GrantTable × Bool
revoke id rows = (mark_revoked id rows, has_grant id rows)

-- `GrantStore.isValid`, which revokes a grant that it finds expired.
unfoldable pub is_valid : String → ℕ → GrantTable → GrantTable × Bool
is_valid id now rows = elim (get_by_id id rows) [
  | none ↦ (rows, false)
  | some grant ↦
      if grant.revoked
      then (rows, false)
      else if leb grant.expires_at now
      then ((revoke id rows).0, false)
      else (rows, true)
]

-- `revoked = 0 AND expires_at > now`
unfoldable pub is_active : ℕ → GrantRow → Bool
is_active now r = r.revoked == 0 && ltb now r.expires_at

abbrev pub created : GrantRow → ℕ
created r = r.created_at

-- `GrantStore.listActiveForUser`
unfoldable pub list_active_for_user : String → ℕ → GrantTable → List Grant
list_active_for_user user now rows =
    map row_to_grant (sort_desc created (keep (λ r. str_eq r.user_id user && is_active now r) rows))

pub record MatchKey : Type 0 where
  pub tool_name : String
  pub plugin : String
  pub agent_id : String
  pub delegated_by : Option String

-- The WHERE clause of `findActive`; `delegated_by IS ?` holds of two NULLs.
unfoldable pub matches : MatchKey → ℕ → GrantRow → Bool
matches q now r =
    str_eq r.tool_name q.tool_name
    && str_eq r.plugin q.plugin
    && str_eq r.agent_id q.agent_id
    && is_null_or_eq r.delegated_by q.delegated_by
    && is_active now r

-- `GrantStore.findActive`: the newest row that matches.
unfoldable pub find_active : MatchKey → ℕ → GrantTable → Option Grant
find_active q now rows =
    Option.map row_to_grant (first (sort_desc created (keep (matches q now) rows)))
