-- ===== src/Tools/Granted.antt =====
-- `handleCallTool`: under what a plugin is called.
use pdatahub.Grants.{Grant, GrantTable}
use mathlib.Core.Option
use pdatahub.Delegations.Canonical.{Fields}
use pdatahub.Federation.Call.{default_user_id}
use pdatahub.Grants.Ensure.{Ensured, approved, ensure_grant}
use pdatahub.Tools.{scope_in, plugin_error, other_error, CallToolRequest, ToolPlugin}
use pdatahub.Tools.Call.{
  PluginCall, plugin_call, from_context, answered_nothing, threw_nothing, ToolAnswer, answered,
  threw, Surroundings, Outcome, ToolCall, tool_call, local_input, conclude, ensure_context,
  token_for, use_grant, ensure_and_call, handle_call_tool,
}
use pdatahub.Grants.Ensure.Outcome.{ensure_grant-IsFor}
use pdatahub.Prelude.{
  String, none, some, true, false, refl, ok, Result, ◌≡◌, arith, ◌∙◌, sym, ap, inl, inr, err,
  Result-cases, Option-cases,
}

-- What a call of a plugin rests on: it is the call that the request asks for, of the plugin that has the tool, and
-- `ensureGrant`, asked for this tool, plugin and agent with no delegating hub, gave a grant for them.
pub record IsGranted (around : Surroundings) (tool : String) (body : Result CallToolRequest)
    (grants : GrantTable) (sent : PluginCall) (left : GrantTable) : Type 0 where
  pub request : CallToolRequest
  pub read : body ≡ ok request
  pub found : around.get_plugin tool ≡ some sent.plugin
  pub tool_called : sent.tool ≡ tool
  pub arguments : sent.arguments ≡ Option.get_or request.arguments Fields.end
  pub agent_id :
      sent.agent_id ≡ Option.get_or (from_context request.context (λ c. c.agent_id)) "unknown-agent"
  pub ensured : Ensured
  pub asked_for :
      ensured
      ≡ ensure_grant
          (record {
            tool_name = tool;
            plugin = sent.plugin.name;
            agent_id = sent.agent_id;
            user_id = default_user_id;
            delegated_by = none;
          })
          (record around.ensure { tool_scope = scope_in tool sent.plugin.tools })
          grants
  pub grant : Grant
  pub given : ensured.result ≡ ok grant
  pub for_tool : grant.tool_name ≡ tool
  pub for_plugin : grant.plugin ≡ sent.plugin.name
  pub for_agent : grant.agent_id ≡ sent.agent_id
  pub not_delegated : grant.delegated_by ≡ none
  pub live : grant.revoked ≡ false
  pub rows : left ≡ ensured.rows
  pub consent : ensured.asked ≡ true → around.ensure.approval ≡ approved

some_inj : {A : Type 0} {x y : A} → some x ≡ some y → x ≡ y
some_inj e = cc

module _ (around : Surroundings) where
  -- The call that reaches the plugin, and the grants, after each of the steps.
  record IsSent (c : ToolCall) (grants : GrantTable) (o : Outcome) (sent : PluginCall)
      : Type 0 where
    plugin : sent.plugin ≡ c.plugin
    tool : sent.tool ≡ c.tool
    arguments : sent.arguments ≡ c.arguments
    agent_id : sent.agent_id ≡ c.agent_id
    rows : o.grants ≡ grants

  conclude-sent :
      (c : ToolCall) (grant : Grant) (grants : GrantTable) (sent : PluginCall) (a : ToolAnswer)
      → ((conclude around c grant grants sent a).sent ≡ some sent)
        × ((conclude around c grant grants sent a).grants ≡ grants)
  unfolding conclude
  conclude-sent c grant grants sent (answered r) = (refl, refl)
  conclude-sent c grant grants sent answered_nothing = (refl, refl)
  conclude-sent c grant grants sent (threw (plugin_error e)) = (refl, refl)
  conclude-sent c grant grants sent (threw (other_error m)) = (refl, refl)
  conclude-sent c grant grants sent threw_nothing = (refl, refl)

  use_grant-IsSent :
      (c : ToolCall) (grant : Grant) (grants : GrantTable) {sent : PluginCall}
      → (use_grant around c grant grants).sent ≡ some sent
      → IsSent c grants (use_grant around c grant grants) sent
  unfolding use_grant plugin_call
  use_grant-IsSent c grant grants {sent} h = elim (Result-cases (token_for around c grant)) [
    | inr (m, e) ↦ absurd (ground (arith, e))
    | inl (token, e) ↦
        let call = plugin_call around c token in
        let (same, rows) = conclude-sent c grant grants call (around.call_tool call) in
        let run : (conclude around c grant grants call (around.call_tool call)).sent ≡ some sent =
          rw (e, use_grant) at h in
        let eq : call ≡ sent = some_inj (sym same ∙ run) in
        record {
          plugin = ap (λ x. x.plugin) (sym eq);
          tool = ap (λ x. x.tool) (sym eq);
          arguments = ap (λ x. x.arguments) (sym eq);
          agent_id = ap (λ x. x.agent_id) (sym eq);
          rows = rw (e, use_grant) rows;
        }
  ]

  ensure_and_call-IsSent :
      (c : ToolCall) (grants : GrantTable) {sent : PluginCall}
      → (ensure_and_call around c grants).sent ≡ some sent
      → let ensured = ensure_grant (local_input c) (ensure_context around c) grants in
        (grant : Grant) × (ensured.result ≡ ok grant)
        × IsSent c ensured.rows (ensure_and_call around c grants) sent
  unfolding ensure_and_call
  ensure_and_call-IsSent c grants h =
      let ensured = ensure_grant (local_input c) (ensure_context around c) grants in
      elim (Result-cases ensured.result) [
        | inl (grant, e) ↦ (
          grant,
          e,
          rw (e, ensure_and_call)
              (use_grant-IsSent c grant ensured.rows (rw (e, ensure_and_call) at h)),
        )
        | inr (m, e) ↦ absurd (ground (arith, e))
      ]

  call-IsGranted :
      (tool : String) (b : CallToolRequest) (grants : GrantTable) (plugin : ToolPlugin)
      {sent : PluginCall} (o : Outcome)
      → around.get_plugin tool ≡ some plugin
      → ensure_and_call around (tool_call tool plugin around.new_request_id b) grants ≡ o
      → o.sent ≡ some sent
      → IsGranted around tool (ok b) grants sent o.grants
  unfolding tool_call local_input ensure_context
  call-IsGranted tool b grants plugin o e same h =
      let c = tool_call tool plugin around.new_request_id b in
      let (grant, given, is) = ensure_and_call-IsSent c grants (ap (λ x. x.sent) same ∙ h) in
      let (fitting, consent) =
        ensure_grant-IsFor (local_input c) (ensure_context around c) grants grant given in
      record {
        request = b;
        read = refl;
        found = e ∙ ap some (sym is.plugin);
        tool_called = is.tool;
        arguments = is.arguments;
        agent_id = is.agent_id;
        ensured = ensure_grant (local_input c) (ensure_context around c) grants;
        asked_for = rw (is.plugin, is.agent_id) refl;
        grant = grant;
        given = given;
        for_tool = fitting.tool;
        for_plugin = fitting.plugin ∙ ap (λ x. x.name) (sym is.plugin);
        for_agent = fitting.agent ∙ sym is.agent_id;
        not_delegated = fitting.delegated;
        live = fitting.live;
        rows = ap (λ x. x.grants) (sym same) ∙ is.rows;
        consent = consent;
      }

  -- handleCallTool calls a plugin only for a body that it can read, and then the plugin that has the tool, for the tool,
  -- the arguments and the agent that the request names; ensureGrant has given a grant for this tool, plugin and
  -- agent that no hub delegated and that is not revoked; and if it had to ask the phone, the phone has approved.
  pub handle_call_tool-IsGranted :
      (tool : String) (body : Result CallToolRequest) (grants : GrantTable) (sent : PluginCall)
      → (handle_call_tool around tool body grants).sent ≡ some sent
      → IsGranted around tool body grants sent (handle_call_tool around tool body grants).grants
  unfolding handle_call_tool
  handle_call_tool-IsGranted tool (err e) grants sent h = absurd (cc)
  handle_call_tool-IsGranted tool (ok b) grants sent h =
      elim (Option-cases (around.get_plugin tool)) [
        | inl e ↦ absurd (ground (arith, e))
        | inr (plugin, e) ↦
            rw (e, handle_call_tool)
              (call-IsGranted tool b grants plugin _ e refl (rw (e, handle_call_tool) at h))
      ]
