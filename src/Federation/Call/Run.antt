-- ===== src/Federation/Call/Run.antt =====
-- `handleFederationCall`, steps 7 to 13: what an authorized call goes through, and the whole handler.
use mathlib.Core.Option
use pdatahub.Audit.{AuditAppendInput, AuditDecision}
use pdatahub.Nonces.{NonceTable, record_nonce}
use pdatahub.Grants.{Grant, GrantTable}
use pdatahub.Grants.Ensure.{Approval, EnsureInput, EnsureContext, ensure_grant}
use pdatahub.Delegations.{GrantedTable}
use pdatahub.Delegations.Canonical.{Json, Items, Fields}
use pdatahub.Federation.Limit.{CallTimes, limit_key, check_federated_rate_limit}
use pdatahub.Federation.Call.{
  Services, FederationRequest, CallBody, Response, success, failure, thrown, go, reject,
  security_audit, default_user_id,
}
use pdatahub.Federation.Call.Checks.{
  Hub, Authorized, elapsed, known_delegation, call_audit, authorize,
}
use pdatahub.Prelude.{
  str_append, [], none, some, true, false, ok, err, String, Option, ℕ, List, if◌then◌else◌, Bool,
  Result, ◌-◌, ◌∷◌, ◌+◌, ◌==◌, ◌/◌,
}

-- `getInfo()` of a plugin, as far as the handler reads it.
pub record PluginInfo : Type 0 where
  pub name : String
  pub has_oauth : Bool

-- What a plugin returns: its fields `data`, `content` and `isError`.
pub record ToolResult : Type 0 where
  pub payload : Option Json
  pub content : Option Items
  pub is_error : Option Bool

-- How the plugin's promise ends: with an object, with null or nothing, with an exception that has a message, or
-- with null or nothing as the exception.
pub data PluginAnswer : Type 0 where
  gave : ToolResult → PluginAnswer
  gave_nothing : PluginAnswer
  threw : String → PluginAnswer
  threw_nothing : PluginAnswer

unfoldable pub is_nothing : PluginAnswer → Bool
is_nothing (gave r) = false
is_nothing gave_nothing = true
is_nothing (threw e) = false
is_nothing threw_nothing = false

-- The state that the handler changes.
pub record HubState : Type 0 where
  pub nonces : NonceTable
  pub limits : CallTimes
  pub grants : GrantTable

-- What surrounds the call: the phones, the plugins and their tokens, the answer to the first approval
-- request and the time at which it is in, the context of `ensureGrant`, the plugin's answer, and the text of the
-- exception that reading a field of null or nothing gives.
pub record Surroundings : Type 0 where
  pub connected_clients : ℕ
  pub get_plugin : String → Option PluginInfo
  pub get_access_token : String → Result (Option String)
  pub approval : Approval
  pub decided_at : ℕ
  pub ensure : EnsureContext
  pub call_tool : CallBody → Fields → Option String → PluginAnswer
  pub nothing_error : String
  pub finished_at : ℕ
  pub stringify : Json → String

-- The response, the new state, the entries that were appended to the audit log, and whether the
-- plugin was called.
pub record Outcome : Type 0 where
  pub response : Response
  pub state : HubState
  pub audited : List AuditAppendInput
  pub invoked : Bool

unfoldable pub content_of : (Json → String) → ToolResult → Items
content_of stringify r = elim r.payload [
  | some v ↦
      Items.cons
        (Json.object (
          Fields.field "type" (Json.string "text")
            (Fields.field "text" (Json.string (stringify v)) Fields.end)))
        Items.nil
  | none ↦ Option.get_or r.content Items.nil
]

unfoldable pub tool_response : (Json → String) → ToolResult → Json
tool_response stringify r = Json.object (
    Fields.field "content" (Json.array (content_of stringify r)) (elim r.is_error [
      | none ↦ Fields.end
      | some b ↦ Fields.field "isError" (Json.boolean b) Fields.end
    ]))

-- An outcome in which the plugin is not called.
abbrev pub stop : HubState → Response → List AuditAppendInput → Outcome
stop state response audited = record {
  response = response;
  state = state;
  audited = audited;
  invoked = false;
}

unfoldable pub ensure_input : Authorized → PluginInfo → EnsureInput
ensure_input a plugin = record {
  tool_name = a.call.tool;
  plugin = plugin.name;
  agent_id = a.call.agent_id;
  user_id = default_user_id;
  delegated_by = some a.pubkey;
}

-- `Math.ceil(ms / 1000)`
unfoldable pub ceil_seconds : ℕ → ℕ
ceil_seconds ms = (ms + 999) / 1000

module _ (services : Services) (hub : Hub) (around : Surroundings) where
  -- The end of the call, with its entries, in the order in which they are written.
  abbrev ended : Response → HubState → List AuditAppendInput → Outcome
  ended response state audited = record {
    response = response;
    state = state;
    audited = audited;
    invoked = true;
  }

  -- The entry about a plugin that has answered or thrown.
  abbrev used : Authorized → Grant → AuditDecision → Option String → AuditAppendInput
  used a grant decision error =
      call_audit a.pubkey a.call grant.plugin grant.scope decision (some grant.grant_id)
        (around.finished_at - hub.started_at) error none

  -- What is made of the answer. The approval is written before the result is read, inside the `try`, so that a result
  -- that is null or nothing has both entries. An exception that is null or nothing leaves the handler.
  unfoldable pub conclude : Authorized → Grant → HubState → PluginAnswer → Outcome
  unfolding call_audit
  conclude a grant state (gave r) =
      ended (success (tool_response around.stringify r)) state
        (used a grant AuditDecision.approved none ∷ [])
  conclude a grant state gave_nothing = ended (failure 500 "PLUGIN_ERROR") state (
      used a grant AuditDecision.approved none
      ∷ used a grant AuditDecision.error (some around.nothing_error)
      ∷ [])
  conclude a grant state (threw e) =
      ended (failure 500 "PLUGIN_ERROR") state (used a grant AuditDecision.error (some e) ∷ [])
  conclude a grant state threw_nothing = ended (thrown around.nothing_error) state []

  -- Step 13.
  unfoldable pub invoke : Authorized → Option String → Grant → HubState → Outcome
  invoke a token grant state =
      conclude a grant state
        (around.call_tool a.call (Option.get_or a.call.arguments Fields.end) token)

  -- A call that is not approved, with the entry about it.
  unfoldable pub not_approved :
      Authorized → PluginInfo → ℕ → Option String → String → HubState → Outcome
  unfolding call_audit
  not_approved a plugin at error federated state = stop state (failure 403 "APPROVAL_DENIED") (
      call_audit a.pubkey a.call plugin.name a.delegation.scope AuditDecision.denied none
        (at - hub.started_at) error (some federated)
      ∷ [])

  -- Step 12.
  unfoldable pub ensure_and_invoke : Authorized → PluginInfo → Option String → HubState → Outcome
  unfolding ensure_input not_approved
  ensure_and_invoke a plugin token state =
      let ensured = ensure_grant (ensure_input a plugin) around.ensure state.grants in
      let state' : HubState = record state { grants = ensured.rows } in
      elim ensured.result [
        | err e ↦ not_approved a plugin around.ensure.answered_at (some e) "federated_denied" state'
        | ok grant ↦ invoke a token grant state'
      ]

  -- Step 11.
  unfoldable pub ask_phone : Approval → Authorized → PluginInfo → Option String → HubState → Outcome
  ask_phone (Approval.rejected e) a plugin token state =
      not_approved a plugin around.decided_at (some e) "federated_timeout" state
  ask_phone Approval.denied a plugin token state =
      not_approved a plugin around.decided_at none "federated_denied" state
  ask_phone Approval.approved a plugin token state = ensure_and_invoke a plugin token state

  -- Step 10. An exception of the vault leaves the handler.
  unfoldable pub fetch_token : Authorized → PluginInfo → HubState → Outcome
  fetch_token a plugin state =
      elim (if plugin.has_oauth then around.get_access_token plugin.name else ok none) [
        | err e ↦ stop state (thrown e) []
        | ok token ↦ ask_phone around.approval a plugin token state
      ]

  unfoldable pub security_stop : Authorized → HubState → ℕ → String → String → Outcome
  unfolding security_audit
  security_stop a state status code message =
      stop state (failure status code)
        (security_audit (known_delegation hub a.pubkey a.call a.delegation) code message ∷ [])

  -- Step 9.
  unfoldable pub find_plugin : Authorized → HubState → Outcome
  unfolding security_stop
  find_plugin a state = elim (around.get_plugin a.call.tool) [
    | none ↦ security_stop a state 404 "UNKNOWN_TOOL" (
        str_append "tool=" (
          str_append a.call.tool (
            str_append " plugin_name=" (str_append a.delegation.plugin " not registered locally"))))
    | some plugin ↦ fetch_token a plugin state
  ]

  -- Step 8.
  unfoldable pub limit_rate : Authorized → HubState → Outcome
  unfolding security_stop ceil_seconds
  limit_rate a state =
      let (limits, wait) =
        check_federated_rate_limit (limit_key a.pubkey a.call.agent_id) hub.now state.limits in
      let state' : HubState = record state { limits = limits } in
      elim wait [
        | some ms ↦
            security_stop a state' 429 "RATE_LIMIT"
              (str_append "retry_after=" (str_append (services.decimal (ceil_seconds ms)) "s"))
        | none ↦ find_plugin a state'
      ]

  -- The recording of the nonce, and step 7.
  unfoldable pub admit_call : Authorized → HubState → Outcome
  unfolding call_audit
  admit_call a state =
      let state' : HubState = record state {
        nonces = record_nonce a.call.request_id hub.now state.nonces;
      } in
      if around.connected_clients == 0
      then stop state' (failure 503 "NO_APPROVER_CONNECTED") (
          call_audit a.pubkey a.call a.delegation.plugin a.delegation.scope AuditDecision.denied
            none (elapsed hub) (some "no approver connected") none
          ∷ [])
      else limit_rate a state'

-- The hub as the checks read it.
abbrev pub hub_at : ℕ → ℕ → GrantedTable → HubState → Hub
hub_at started_at now delegations state = record {
  started_at = started_at;
  now = now;
  delegations = delegations;
  nonces = state.nonces;
}

-- `handleFederationCall`. There are no delegations if the hub was built without them.
unfoldable pub handle_federation_call :
    Services → Surroundings → Option GrantedTable → ℕ → ℕ → FederationRequest → HubState → Outcome
handle_federation_call services around delegations started_at now req state = elim delegations [
  | none ↦ stop state (failure 503 "FEDERATION_NOT_INITIALIZED") []
  | some table ↦
      let hub = hub_at started_at now table state in
      elim (authorize services hub req) [
        | reject r ↦ stop state r.response r.audited
        | go a ↦ admit_call services hub around a state
      ]
]
