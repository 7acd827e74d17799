-- ===== src/Plugins/Typed.antt =====
-- What `handleCallTool` of packages/hub-core/src/server.ts makes of the end of `PluginProcess.callTool`.

use pdatahub.Delegations.Canonical.{Fields}
use pdatahub.Federation.Call.Run.{ToolResult}
use pdatahub.Grants.{Grant, GrantTable}
use pdatahub.Grants.Ensure.{ensure_grant}
use pdatahub.Plugins.{Settlement, resolved, plugin_error, timed_out, terminated}
use pdatahub.Tools.{other_error, CallToolRequest}
use pdatahub.Prelude.{
  some, none, inl, inr, refl, str_append, String, ◌≡◌, Option, All, Result-cases, Result,
  Option-cases,
}
use pdatahub.Tools.Call.{
  PluginCall, plugin_call, answered_nothing, ToolAnswer, answered, threw, Surroundings, ToolReply,
  content, failure, plugin_failure, thrown, Outcome, ToolCall, tool_call, local_input, local_audit,
  conclude, ensure_context, token_for, use_grant, ensure_and_call, handle_call_tool, passed_token,
}

-- `callTool`, whose result is none if it is null or missing. The class `PluginError` of plugin-process.ts is not that of the SDK, for which `handleCallTool`
-- tests, so each rejection is an error of no known kind.
unfoldable pub call_tool : Settlement (Option ToolResult) → ToolAnswer
call_tool (resolved (some r)) = answered r
call_tool (resolved none) = answered_nothing
call_tool (plugin_error e) = threw (other_error e.message)
call_tool (timed_out method) = threw (other_error (str_append "plugin request timeout: " method))
call_tool terminated = threw (other_error "plugin process terminated")

-- A hub whose plugins are processes; `ends` is how a request of `tools/call` is settled.
abbrev pub with_processes :
    (String → Fields → String → String → Option String → Settlement (Option ToolResult))
    → Surroundings
    → Surroundings
with_processes ends around = record around {
  call_tool =
      λ sent. call_tool (ends sent.tool sent.arguments sent.agent_id sent.request_id sent.token);
}

-- Not the reply to a typed error of a plugin.
abbrev pub IsUntypedReply : ToolReply → Type 0
IsUntypedReply (content v) = Unit
IsUntypedReply (failure status code) = Unit
IsUntypedReply (plugin_failure status m) = ⊥
IsUntypedReply (thrown x) = Unit

-- Nothing of a typed error: the reply, the notification of the phones, and the entries' codes.
abbrev pub IsUntyped : Outcome → Type 0
IsUntyped o = IsUntypedReply o.reply × (o.reauth ≡ none) × All (λ e. e.error_code ≡ none) o.audited

module _ (ends : String → Fields → String → String → Option String → Settlement (Option ToolResult))
    (given : Surroundings) where
  abbrev around : Surroundings
  around = with_processes ends given

  conclude-IsUntyped :
      (c : ToolCall) (grant : Grant) (grants : GrantTable) (sent : PluginCall)
      (s : Settlement (Option ToolResult))
      → IsUntyped (conclude around c grant grants sent (call_tool s))
  unfolding conclude call_tool local_audit
  conclude-IsUntyped c grant grants sent (resolved (some r)) = (tt, refl, (refl, tt))
  conclude-IsUntyped c grant grants sent (resolved none) = (tt, refl, (refl, (refl, tt)))
  conclude-IsUntyped c grant grants sent (plugin_error e) = (tt, refl, (refl, tt))
  conclude-IsUntyped c grant grants sent (timed_out method) = (tt, refl, (refl, tt))
  conclude-IsUntyped c grant grants sent terminated = (tt, refl, (refl, tt))

  use_grant-IsUntyped :
      (c : ToolCall) (grant : Grant) (grants : GrantTable)
      → IsUntyped (use_grant around c grant grants)
  unfolding use_grant plugin_call
  use_grant-IsUntyped c grant grants = elim (Result-cases (token_for around c grant)) [
    | inl (token, e) ↦
        rw (e, use_grant)
          (conclude-IsUntyped c grant grants _
            (ends c.tool c.arguments c.agent_id c.request_id (passed_token token)))
    | inr (m, e) ↦ rw (e, use_grant) (tt, refl, tt)
  ]

  ensure_and_call-IsUntyped :
      (c : ToolCall) (grants : GrantTable) → IsUntyped (ensure_and_call around c grants)
  unfolding ensure_and_call local_audit
  ensure_and_call-IsUntyped c grants =
      let ensured = ensure_grant (local_input c) (ensure_context around c) grants in
      elim (Result-cases ensured.result) [
        | inl (grant, e) ↦ rw (e, ensure_and_call) (use_grant-IsUntyped c grant ensured.rows)
        | inr (m, e) ↦ rw (e, ensure_and_call) (tt, refl, (refl, tt))
      ]

-- Whatever a plugin's process answers to a tool call, the reply is never that to a typed error, no phone is asked to
-- authorize again, and no entry of the audit log has an error code.
pub handle_call_tool-IsUntyped :
    (ends : String → Fields → String → String → Option String → Settlement (Option ToolResult))
    (given : Surroundings) (tool : String) (body : Result CallToolRequest) (grants : GrantTable)
    → IsUntyped (handle_call_tool (with_processes ends given) tool body grants)
unfolding handle_call_tool
handle_call_tool-IsUntyped ends given tool body grants = elim (Result-cases body) [
  | inr (m, e) ↦ rw (e, handle_call_tool) (tt, refl, tt)
  | inl (b, e) ↦ elim (Option-cases (given.get_plugin tool)) [
    | inl f ↦ rw (e, f, handle_call_tool) (tt, refl, tt)
    | inr (plugin, f) ↦
        rw (e, f, handle_call_tool)
          (ensure_and_call-IsUntyped ends given (tool_call tool plugin given.new_request_id b)
            grants)
  ]
]
