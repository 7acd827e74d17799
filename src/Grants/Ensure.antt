-- ===== src/Grants/Ensure.antt =====
-- packages/hub-core/src/server.ts, `ensureGrant`: the grant under which a call runs.
pub mod Outcome
mod Tests
use mathlib.Core.Option
use pdatahub.Grants.Find.{IsAnswer, IsMatch, find_active-IsAnswer, find_active-none_iff}
use pdatahub.Grants.{
  GrantRow, new_row, create, row_to_grant, has_grant, Grant, GrantTable, CreateInput, MatchKey,
  find_active,
}
use pdatahub.Prelude.{
  none, some, true, false, ok, err, ℕ, String, Result, ◌+◌, Option, Bool, ◌≡◌, ◌↔◌, ◌≢◌, ◌<◌, Memᴰ,
  [], inl, inr, refl, arith, ◌++◌, Bool-cases, Option-cases, ◌∷◌, Memᴰ-last,
}

abbrev pub tool_grant_ttl_ms : ℕ
tool_grant_ttl_ms = 3600000

-- How `requestApproval` ends: the decision of the phone, or the error it rejects with.
pub data Approval : Type 0 where
  approved : Approval
  denied : Approval
  rejected : String → Approval

pub record EnsureInput : Type 0 where
  pub tool_name : String
  pub plugin : String
  pub agent_id : String
  pub user_id : String
  pub delegated_by : Option String

abbrev pub key_of : EnsureInput → MatchKey
key_of i = record {
  tool_name = i.tool_name;
  plugin = i.plugin;
  agent_id = i.agent_id;
  delegated_by = i.delegated_by;
}

-- The table after the call, the grant or the error, and whether the phone was asked.
pub record Ensured : Type 0 where
  pub rows : GrantTable
  pub result : Result Grant
  pub asked : Bool

-- What surrounds a call: the clock when it starts and when the approval is in, the answer that the
-- phone gives if it is asked, what other requests do to the table during the wait, the scope that the
-- plugin registry states for the tool, and the UUID that is drawn.
pub record EnsureContext : Type 0 where
  pub now : ℕ
  pub answered_at : ℕ
  pub approval : Approval
  pub meanwhile : GrantTable → GrantTable
  pub tool_scope : Option String
  pub new_id : String

unfoldable pub grant_input : EnsureInput → EnsureContext → CreateInput
grant_input i ctx = record {
  tool_name = i.tool_name;
  plugin = i.plugin;
  scope = Option.get_or ctx.tool_scope "unknown";
  agent_id = i.agent_id;
  user_id = i.user_id;
  expires_at = ctx.answered_at + tool_grant_ttl_ms;
  delegated_by = i.delegated_by;
}

-- The grant of an approved call.
unfoldable pub create_approved : EnsureInput → EnsureContext → GrantTable → Ensured
create_approved i ctx rows = elim (create (grant_input i ctx) ctx.new_id ctx.answered_at rows) [
  | ok (g, rows') ↦ record { rows = rows'; result = ok g; asked = true }
  | err e ↦ record { rows = rows; result = err e; asked = true }
]

unfoldable pub after_approval : Approval → EnsureInput → EnsureContext → GrantTable → Ensured
after_approval approved i ctx rows = create_approved i ctx rows
after_approval denied i ctx rows = record {
  rows = rows;
  result = err "user denied approval";
  asked = true;
}
after_approval (rejected e) i ctx rows = record { rows = rows; result = err e; asked = true }

unfoldable pub ensure_grant : EnsureInput → EnsureContext → GrantTable → Ensured
ensure_grant i ctx rows = elim (find_active (key_of i) ctx.now rows) [
  | some existing ↦ record { rows = rows; result = ok existing; asked = false }
  | none ↦ after_approval ctx.approval i ctx (ctx.meanwhile rows)
]

-- A grant for the tool, the plugin, the agent and the delegating hub of the call.
pub record IsFor (i : EnsureInput) (g : Grant) : Type 0 where
  pub tool : g.tool_name ≡ i.tool_name
  pub plugin : g.plugin ≡ i.plugin
  pub agent : g.agent_id ≡ i.agent_id
  pub delegated : g.delegated_by ≡ i.delegated_by
  pub live : g.revoked ≡ false
