-- ===== src/Tools/Call.antt =====
-- `handleCallTool`: the grant, the token, the plugin's answer and the entries about it.
use mathlib.Core.Option
use pdatahub.Audit.{AuditAppendInput, AuditDecision}
use pdatahub.Grants.{Grant, GrantTable}
use pdatahub.Grants.Ensure.{EnsureInput, EnsureContext, ensure_grant}
use pdatahub.Delegations.Canonical.{Json, Fields}
use pdatahub.Federation.Call.{default_user_id}
use pdatahub.Federation.Call.Run.{ToolResult, tool_response}
use pdatahub.Tools.{
  PluginError, ToolError, plugin_error, other_error, map_error_to_http_status, McpError,
  map_error_to_mcp_error, PluginReauthNotification, build_plugin_reauth_notification, CallContext,
  CallToolRequest, ToolPlugin, scope_in, ClientCredentials, resolve_client_credentials,
}
use pdatahub.Prelude.{
  String, [], none, some, true, false, ok, err, Option, ℕ, List, ◌-◌, Bool, Result, Dict, ◌∷◌,
  if◌then◌else◌, str_eq,
}

-- How a plugin's promise ends: with an object, with null or nothing, with an exception, or with null or nothing as
-- the exception.
pub data ToolAnswer : Type 0 where
  answered : ToolResult → ToolAnswer
  answered_nothing : ToolAnswer
  threw : ToolError → ToolAnswer
  threw_nothing : ToolAnswer

-- A call of a plugin: the arguments of `callTool`, and whose it is.
pub record PluginCall : Type 0 where
  pub plugin : ToolPlugin
  pub tool : String
  pub arguments : Fields
  pub agent_id : String
  pub request_id : String
  pub token : Option String

-- What surrounds the call: the plugins, the vault (`get_access_token` is told whether a refresh was tried
-- before), the clock and the UUID, the context of `ensureGrant`, what the plugin answers to a call, and the text of
-- the exception that reading a field of null or nothing gives.
pub record Surroundings : Type 0 where
  pub get_plugin : String → Option ToolPlugin
  pub from_env : Dict ClientCredentials
  pub store : Option (String → Option ClientCredentials)
  pub is_expiring_soon : String → Bool
  pub get_access_token : Bool → String → Result String
  pub new_request_id : String
  pub started_at : ℕ
  pub finished_at : ℕ
  pub ensure : EnsureContext
  pub call_tool : PluginCall → ToolAnswer
  pub nothing_error : String
  pub stringify : Json → String

pub data ToolReply : Type 0 where
  content : Json → ToolReply
  failure : ℕ → String → ToolReply
  plugin_failure : ℕ → McpError → ToolReply
  -- An exception leaves the handler; the server's catch-all answers.
  thrown : String → ToolReply

-- The reply, the grants, the entries of the audit log, those that the phones see, the notification that
-- they get, and the call of a plugin, if there was one.
pub record Outcome : Type 0 where
  pub reply : ToolReply
  pub grants : GrantTable
  pub audited : List AuditAppendInput
  pub broadcast : List AuditAppendInput
  pub reauth : Option PluginReauthNotification
  pub sent : Option PluginCall

-- The call with its defaults.
pub record ToolCall : Type 0 where
  pub tool : String
  pub plugin : ToolPlugin
  pub agent_id : String
  pub justification : Option String
  pub request_id : String
  pub arguments : Fields

abbrev pub from_context : Option CallContext → (CallContext → Option String) → Option String
from_context none field = none
from_context (some c) field = field c

unfoldable pub tool_call : String → ToolPlugin → String → CallToolRequest → ToolCall
tool_call tool plugin new_id body = record {
  tool = tool;
  plugin = plugin;
  agent_id = Option.get_or (from_context body.context (λ c. c.agent_id)) "unknown-agent";
  justification = from_context body.context (λ c. c.justification);
  request_id = Option.get_or (from_context body.context (λ c. c.request_id)) new_id;
  arguments = Option.get_or body.arguments Fields.end;
}

unfoldable pub local_input : ToolCall → EnsureInput
local_input c = record {
  tool_name = c.tool;
  plugin = c.plugin.name;
  agent_id = c.agent_id;
  user_id = default_user_id;
  delegated_by = none;
}

-- An entry about a local call, with the class and the code of a plugin's error.
unfoldable pub local_audit :
    ToolCall
    → String
    → String
    → AuditDecision
    → Option String
    → ℕ
    → Option String
    → Option PluginError
    → AuditAppendInput
local_audit c plugin scope decision grant_id duration error typed = record {
  agent_id = c.agent_id;
  user_id = default_user_id;
  tool_name = c.tool;
  plugin = plugin;
  scope = scope;
  justification = c.justification;
  decision = decision;
  grant_id = grant_id;
  duration_ms = duration;
  error = error;
  delegated_by = none;
  delegated_to = none;
  decision_federated = none;
  error_class = elim typed [ none ↦ none | some e ↦ some e.name ];
  error_code = elim typed [ none ↦ none | some e ↦ some e.code ];
  actor_type = none;
  actor_id = none;
  request_id = none;
}

abbrev pub stop : ToolReply → GrantTable → List AuditAppendInput → Outcome
stop reply grants audited = record {
  reply = reply;
  grants = grants;
  audited = audited;
  broadcast = [];
  reauth = none;
  sent = none;
}

-- The plugin was called, and the entries are broadcast.
abbrev pub called :
    ToolReply
    → GrantTable
    → PluginCall
    → List AuditAppendInput
    → Option PluginReauthNotification
    → Outcome
called reply grants sent entries reauth = record {
  reply = reply;
  grants = grants;
  audited = entries;
  broadcast = entries;
  reauth = reauth;
  sent = some sent;
}

-- An empty token is not passed on.
unfoldable pub passed_token : Option String → Option String
passed_token none = none
passed_token (some t) = if str_eq t "" then none else some t

module _ (around : Surroundings) where
  -- The entry about a plugin that has answered or thrown.
  abbrev pub used :
      ToolCall → Grant → AuditDecision → Option String → Option PluginError → AuditAppendInput
  used c grant decision error typed =
      local_audit c grant.plugin grant.scope decision (some grant.grant_id)
        (around.finished_at - around.started_at) error typed

  -- What is made of the answer. The approval is written before the result is read, inside the `try`, so that a result
  -- that is null or nothing has both entries. An exception that is null or nothing leaves the handler.
  unfoldable pub conclude : ToolCall → Grant → GrantTable → PluginCall → ToolAnswer → Outcome
  conclude c grant grants sent (answered r) =
      called (content (tool_response around.stringify r)) grants sent
        (used c grant AuditDecision.approved none none ∷ []) none
  conclude c grant grants sent answered_nothing =
      called (failure 500 "PLUGIN_ERROR") grants sent
        (used c grant AuditDecision.approved none none
          ∷ used c grant AuditDecision.error (some around.nothing_error) none
          ∷ [])
        none
  conclude c grant grants sent (threw (plugin_error e)) =
      called (plugin_failure (map_error_to_http_status e) (map_error_to_mcp_error e)) grants sent
        (used c grant AuditDecision.error (some e.message) (some e) ∷ [])
        (build_plugin_reauth_notification e grant.plugin)
  conclude c grant grants sent (threw (other_error m)) =
      called (failure 500 "PLUGIN_ERROR") grants sent
        (used c grant AuditDecision.error (some m) none ∷ []) none
  conclude c grant grants sent threw_nothing =
      called (thrown around.nothing_error) grants sent [] none

  -- Whether the token is refreshed before the call; a refresh that fails is only logged.
  unfoldable pub refreshes : Grant → Bool
  refreshes grant =
      if around.is_expiring_soon grant.plugin
      then elim (resolve_client_credentials around.from_env around.store grant.plugin) [
        | none ↦ false
        | some c ↦ true
      ]
      else false

  -- The token of a plugin that needs OAuth. The vault throws if it has none.
  unfoldable pub token_for : ToolCall → Grant → Result (Option String)
  token_for c grant = elim c.plugin.token_url [
    | none ↦ ok none
    | some url ↦ elim (around.get_access_token (refreshes grant) grant.plugin) [
      | err e ↦ err e
      | ok t ↦ ok (some t)
    ]
  ]

  -- The arguments of `callTool`.
  unfoldable pub plugin_call : ToolCall → Option String → PluginCall
  plugin_call c token = record {
    plugin = c.plugin;
    tool = c.tool;
    arguments = c.arguments;
    agent_id = c.agent_id;
    request_id = c.request_id;
    token = passed_token token;
  }

  unfoldable pub use_grant : ToolCall → Grant → GrantTable → Outcome
  use_grant c grant grants = elim (token_for c grant) [
    | err e ↦ stop (thrown e) grants []
    | ok token ↦
        let sent = plugin_call c token in conclude c grant grants sent (around.call_tool sent)
  ]

  unfoldable pub ensure_context : ToolCall → EnsureContext
  ensure_context c = record around.ensure { tool_scope = scope_in c.tool c.plugin.tools }

  -- The approval flow. The entry of a refusal is not broadcast.
  unfoldable pub ensure_and_call : ToolCall → GrantTable → Outcome
  ensure_and_call c grants =
      let ensured = ensure_grant (local_input c) (ensure_context c) grants in
      elim ensured.result [
        | err e ↦ stop (failure 403 "APPROVAL_DENIED") ensured.rows (
            local_audit c c.plugin.name (Option.get_or (scope_in c.tool c.plugin.tools) "unknown")
              AuditDecision.denied none (around.ensure.answered_at - around.started_at) (some e)
              none
            ∷ [])
        | ok grant ↦ use_grant c grant ensured.rows
      ]

  -- `handleCallTool`. A body that cannot be read is an exception.
  unfoldable pub handle_call_tool : String → Result CallToolRequest → GrantTable → Outcome
  handle_call_tool tool body grants = elim body [
    | err e ↦ stop (thrown e) grants []
    | ok b ↦ elim (around.get_plugin tool) [
      | none ↦ stop (failure 404 "UNKNOWN_TOOL") grants []
      | some plugin ↦ ensure_and_call (tool_call tool plugin around.new_request_id b) grants
    ]
  ]
