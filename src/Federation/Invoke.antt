-- ===== src/Federation/Invoke.antt =====
-- packages/hub-core/src/server.ts, `handleFederationInvoke`: a tool call that this hub signs and sends to
-- the peer that delegated the tool. The text of an error response is left out.
pub mod Run
pub mod Sends
pub mod Received
mod Tests
use mathlib.Core.Option
use Prim.Native.Char.{code}
use pdatahub.Audit.{AuditAppendInput, AuditDecision}
use pdatahub.Delegations.{
  DelegationReceivedRow, ReceivedTable, find_received_match, is_expired, is_revoked,
}
use pdatahub.Delegations.Blob.{Platform, bytes_to_base64url}
use pdatahub.Delegations.Canonical.{Json, Items, Fields}
use pdatahub.Federation.Call.{
  Response, success, failure, thrown, field_at, string_field, string_of, record_field,
  default_user_id,
}
use pdatahub.Federation.Names.{parse_federated_tool_name}
use pdatahub.Prelude.{
  str_append, leb, ltb, none, some, String, List, Option, ℕ, ◌-◌, Bool, if◌then◌else◌, Result,
  str_eq, ◌&&◌, ◌==◌,
}

-- The request's body as `readBody` gives it, or the error that it rejects with.
pub data InvokeBody : Type 0 where
  unreadable : String → InvokeBody
  readable : Json → InvokeBody

-- What becomes of the request to the peer: it fails, its body cannot be read, or it is answered by a
-- status and a text, with the value that `JSON.parse` gives it, if it gives one.
pub data Upstream : Type 0 where
  unreachable : String → Upstream
  cut_off : String → Upstream
  answered : ℕ → String → Option Json → Upstream

-- The request to the peer.
pub record Outbound : Type 0 where
  pub url : String
  pub pubkey : String
  pub signature : String
  pub raw : String

-- The hub's own key, the UUIDs, texts and clock readings that the handler draws, and the network.
pub record InvokeContext : Type 0 where
  pub platform : Platform
  pub stringify : Json → String
  pub decimal : ℕ → String
  pub parse_date : String → Option ℕ
  pub identity_exists : Bool
  pub load_identity : Result String
  pub started_at : ℕ
  pub now : ℕ
  pub finished_at : ℕ
  pub request_id : String
  pub timestamp : String
  pub request : Outbound → Upstream

-- The response, the entries that were appended to the audit log, and what was sent.
pub record Invoked : Type 0 where
  pub response : Response
  pub audited : List AuditAppendInput
  pub sent : Option Outbound

-- The fields of the body.
pub record InvokeInput : Type 0 where
  pub tool : String
  pub arguments : Fields
  pub agent_id : String
  pub justification : Option String

unfoldable pub invoke_input : Json → InvokeInput
invoke_input json = record {
  tool = Option.get_or (string_field json "tool") "";
  arguments = Option.get_or (record_field json "arguments") Fields.end;
  agent_id = Option.get_or (string_field json "agent_id") "unknown-agent";
  justification = string_field json "justification";
}

abbrev pub text_field : String → String → Fields → Fields
text_field k s fs = Fields.field k (Json.string s) fs

-- An empty justification is left out.
unfoldable pub justification_field : Option String → Fields
justification_field none = Fields.end
justification_field (some s) =
    if str_eq s "" then Fields.end else text_field "justification" s Fields.end

-- The body that the peer gets.
unfoldable pub outbound_body : DelegationReceivedRow → InvokeInput → String → String → Json
unfolding justification_field
outbound_body d i request_id timestamp = Json.object (
    text_field "delegation_id" d.delegation_id (
      text_field "tool" d.tool (
        Fields.field "arguments" (Json.object i.arguments) (
          text_field "agent_id" i.agent_id (
            text_field "request_id" request_id
              (text_field "timestamp" timestamp (justification_field i.justification)))))))

-- `replace(/\/+$/, '')`: a character stays if it or something behind it is no slash.
unfoldable pub strip_slashes : String → String
strip_slashes String.[] = ""
strip_slashes (String.◌∷◌ c s) =
    let rest = strip_slashes s in if str_eq rest "" && code c == b'/' then "" else String.◌∷◌ c rest

abbrev pub stop : Response → List AuditAppendInput → Invoked
stop response audited = record { response = response; audited = audited; sent = none }

-- An entry of the handler itself about a call that is not sent.
unfoldable pub unsent_audit :
    InvokeInput → String → String → String → Option String → ℕ → String → AuditAppendInput
unsent_audit i tool plugin scope peer duration error = record {
  agent_id = i.agent_id;
  user_id = default_user_id;
  tool_name = tool;
  plugin = plugin;
  scope = scope;
  justification = i.justification;
  decision = AuditDecision.denied;
  grant_id = none;
  duration_ms = duration;
  error = some error;
  delegated_by = none;
  delegated_to = peer;
  decision_federated = some "federated_denied";
  error_class = none;
  error_code = none;
  actor_type = none;
  actor_id = none;
  request_id = none;
}

-- An error message that is empty is left out.
unfoldable pub nonempty : Option String → Option String
nonempty none = none
nonempty (some s) = if str_eq s "" then none else some s

-- `writeFederatedAudit`
unfoldable pub federated_audit :
    DelegationReceivedRow → InvokeInput → String → Option String → ℕ → AuditAppendInput
unfolding nonempty
federated_audit d i federated message duration = record {
  agent_id = i.agent_id;
  user_id = default_user_id;
  tool_name = d.tool;
  plugin = d.plugin;
  scope = d.scope;
  justification = i.justification;
  decision =
      if str_eq federated "federated_ok" then AuditDecision.approved else AuditDecision.denied;
  grant_id = none;
  duration_ms = duration;
  error = nonempty message;
  delegated_by = none;
  delegated_to = some d.peer_verify_key;
  decision_federated = some federated;
  error_class = none;
  error_code = none;
  actor_type = none;
  actor_id = none;
  request_id = none;
}

unfoldable pub array_of : Option Json → Items
array_of (some (Json.array xs)) = xs
array_of other = Items.nil

unfoldable pub boolean_field : Option Json → Fields
boolean_field (some (Json.boolean b)) = Fields.field "isError" (Json.boolean b) Fields.end
boolean_field other = Fields.end

unfoldable pub get_field : Option Json → String → Option Json
get_field (some (Json.object fs)) key = field_at key fs
get_field other key = none

-- The response to a peer's success.
unfoldable pub forwarded : Option Json → Json
unfolding array_of boolean_field get_field
forwarded answer = Json.object (
    Fields.field "content" (Json.array (array_of (get_field answer "content")))
      (boolean_field (get_field answer "isError")))
