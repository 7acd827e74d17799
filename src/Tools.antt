-- ===== src/Tools.antt =====
-- packages/hub-core/src/server.ts, `handleCallTool`: a tool call of a local agent, and how the errors of
-- plugins are answered. The body has the type `CallToolRequest`, as the source declares it.
pub mod Call
pub mod Outcomes
pub mod Granted
mod Tests
use pdatahub.Delegations.Canonical.{Json, Items, Fields}
use pdatahub.Prelude.{
  String, none, some, Bool, ℕ, Option, List, if◌then◌else◌, Dict, str_eq, lookup, ◌||◌,
}

-- `PluginError` of packages/plugin-sdk/src/errors.ts.
pub record PluginError : Type 0 where
  pub name : String
  pub code : String
  pub message : String
  pub retryable : Bool
  pub details : Option Fields

-- What a plugin's call throws: a `PluginError`, or something else with its message.
pub data ToolError : Type 0 where
  plugin_error : PluginError → ToolError
  other_error : String → ToolError

-- `mapErrorToHttpStatus`
unfoldable pub map_error_to_http_status : PluginError → ℕ
map_error_to_http_status e =
    if str_eq e.code "AUTH_EXPIRED"
    then 401
    else if str_eq e.code "AUTH_FAILED" || str_eq e.code "SCOPE_MISSING"
    then 403
    else if str_eq e.code "VALIDATION_FAILED"
    then 400
    else if str_eq e.code "NOT_FOUND"
    then 404
    else if str_eq e.code "RATE_LIMITED"
        || str_eq e.code "TIMEOUT"
        || str_eq e.code "NETWORK_ERROR"
        || str_eq e.code "UPSTREAM_ERROR"
    then 502
    else 500

pub record McpError : Type 0 where
  pub code : String
  pub message : String
  pub retryable : Bool
  pub details : Option Fields

-- `mapErrorToMcpError`
unfoldable pub map_error_to_mcp_error : PluginError → McpError
map_error_to_mcp_error e = record {
  code = e.code;
  message = e.message;
  retryable = e.retryable;
  details = e.details;
}

-- `PluginReauthNotification`
pub record PluginReauthNotification : Type 0 where
  pub plugin : String
  pub reason : String
  pub message : String

-- `buildPluginReauthNotification`
unfoldable pub build_plugin_reauth_notification :
    PluginError → String → Option PluginReauthNotification
build_plugin_reauth_notification e plugin =
    if str_eq e.code "AUTH_EXPIRED"
    then some (record { plugin = plugin; reason = "AUTH_EXPIRED"; message = e.message })
    else none

-- `ToolCallContext` and `CallToolRequest`
pub record CallContext : Type 0 where
  pub agent_id : Option String
  pub justification : Option String
  pub request_id : Option String

pub record CallToolRequest : Type 0 where
  pub arguments : Option Fields
  pub context : Option CallContext

-- A plugin's `getInfo()`: its name, its tools with their scopes, and the token URL if it needs OAuth.
pub record ToolPlugin : Type 0 where
  pub name : String
  pub tools : List (String × String)
  pub token_url : Option String

-- `tools.find((t) => t.name === toolName)?.scope`
unfoldable pub scope_in : String → List (String × String) → Option String
scope_in tool_name tools = lookup tool_name tools

pub record ClientCredentials : Type 0 where
  pub client_id : String
  pub client_secret : Option String

-- An empty secret is left out.
unfoldable pub stored_client : ClientCredentials → ClientCredentials
stored_client c = record {
  client_id = c.client_id;
  client_secret = elim c.client_secret [
    | none ↦ none
    | some s ↦ if str_eq s "" then none else some s
  ];
}

-- `resolveClientCredentials`, from the map of the environment and from the store, if there is one.
unfoldable pub resolve_client_credentials :
    Dict ClientCredentials
    → Option (String → Option ClientCredentials)
    → String
    → Option ClientCredentials
resolve_client_credentials from_env store plugin = elim (lookup plugin from_env) [
  | some c ↦ some c
  | none ↦ elim store [
    | none ↦ none
    | some get ↦ elim (get plugin) [ none ↦ none | some c ↦ some (stored_client c) ]
  ]
]
