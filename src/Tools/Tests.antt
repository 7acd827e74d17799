-- ===== src/Tools/Tests.antt =====
-- `handleCallTool`: tests, and the theorems at concrete calls.
use pdatahub.Grants.{create, find_active, has_grant}
use pdatahub.Grants.Ensure.{
  EnsureContext, approved, denied, ensure_grant, after_approval, create_approved,
}
use pdatahub.Tools.{
  PluginError, plugin_error, CallToolRequest, ToolPlugin, map_error_to_http_status,
  map_error_to_mcp_error,
}
use pdatahub.Tools.Call.{
  PluginCall, plugin_call, passed_token, answered_nothing, threw, Surroundings, plugin_failure,
  failure, tool_call, conclude, token_for, use_grant, ensure_context, ensure_and_call,
  handle_call_tool,
}
use pdatahub.Tools.Granted.{IsGranted, handle_call_tool-IsGranted}
use pdatahub.Delegations.Canonical.{Fields}
use pdatahub.Prelude.{length, sort_desc, [], none, some, true, refl, ok, ◌∷◌, ◌≡◌}

abbrev expired : PluginError
expired = record {
  name = "AuthExpiredError";
  code = "AUTH_EXPIRED";
  message = "token expired";
  retryable = true;
  details = none;
}

abbrev ensure : EnsureContext
ensure = record {
  now = 100;
  answered_at = 200;
  approval = approved;
  meanwhile = λ rows. rows;
  tool_scope = none;
  new_id = "g1";
}

abbrev gmail : ToolPlugin
gmail = record {
  name = "gmail";
  tools = ("search", "gmail.read") ∷ [];
  token_url = some "https://token";
}

abbrev around : Surroundings
around = record {
  get_plugin = λ tool. some gmail;
  from_env = [];
  store = none;
  is_expiring_soon = λ plugin. true;
  get_access_token = λ tried plugin. ok "t";
  new_request_id = "r1";
  started_at = 90;
  finished_at = 300;
  ensure = ensure;
  call_tool = λ sent. threw (plugin_error expired);
  nothing_error = "null";
  stringify = λ v. "";
}

abbrev request : CallToolRequest
request = record { arguments = none; context = none }

abbrev search_call : PluginCall
search_call = record {
  plugin = gmail;
  tool = "search";
  arguments = Fields.end;
  agent_id = "unknown-agent";
  request_id = "r1";
  token = some "t";
}

sent : (handle_call_tool around "search" (ok request) []).sent ≡ some search_call
unfolding handle_call_tool sort_desc tool_call ensure_context ensure_and_call ensure_grant
    find_active after_approval create_approved create has_grant use_grant token_for conclude
    plugin_call passed_token
sent = refl

-- A plugin that answers null leaves an approval and an error.
answered_null :
    length
      (handle_call_tool
        (record around { call_tool = λ sent. answered_nothing })
        "search"
        (ok request)
        []).audited
    ≡ 2
unfolding handle_call_tool sort_desc tool_call ensure_context ensure_and_call ensure_grant
    find_active after_approval create_approved create has_grant use_grant token_for conclude
answered_null = refl

handle_call_tool-IsGranted_example :
    IsGranted around "search"
      (ok request)
      []
      search_call
      (handle_call_tool around "search" (ok request) []).grants
handle_call_tool-IsGranted_example =
    handle_call_tool-IsGranted around "search" (ok request) [] search_call sent

-- The error is answered 401 with its code.
expired_reply :
    (handle_call_tool around "search" (ok request) []).reply
    ≡ plugin_failure 401 (map_error_to_mcp_error expired)
unfolding handle_call_tool sort_desc tool_call ensure_context ensure_and_call ensure_grant
    find_active after_approval create_approved create has_grant use_grant token_for conclude
    map_error_to_http_status
expired_reply = refl

refused :
    (handle_call_tool
      (record around { ensure = record ensure { approval = denied } })
      "search"
      (ok request)
      []).reply
    ≡ failure 403 "APPROVAL_DENIED"
unfolding handle_call_tool sort_desc tool_call ensure_context ensure_and_call ensure_grant
    find_active after_approval
refused = refl
