-- ===== src/Federation/Call.antt =====
-- packages/hub-core/src/server.ts, `handleFederationCall`: a tool call that a peer hub has signed. The
-- text of an error response is left out; its status and its code are kept.
pub mod Checks
pub mod Run
pub mod Authorized
pub mod Replayed
pub mod Outcomes
pub mod Logged
mod Tests
use mathlib.Core.Option
use Prim.Native.String.{String}
use pdatahub.Audit.{AuditAppendInput, AuditDecision}
use pdatahub.Delegations.{Bytes, DelegationGrantedRow}
use pdatahub.Delegations.Blob.{Platform, all_base64url, pad}
use pdatahub.Delegations.Canonical.{Json, Fields}
use pdatahub.Prelude.{
  str_append, leb, [], none, some, true, false, zero, suc, ok, err, ℕ, Option, List, Bool, Result,
  if◌then◌else◌, ◌∷◌, ◌-◌, str_eq, ◌+◌,
}

-- `Date.parse`: milliseconds since the epoch, or before it.
pub data Instant : Type 0 where
  since : ℕ → Instant
  before : ℕ → Instant

-- `Math.abs(Date.now() - ts)`
unfoldable pub skew_ms : ℕ → Instant → ℕ
skew_ms now (since t) = if leb t now then now - t else t - now
skew_ms now (before t) = now + t

-- What the handler calls and does not implement: the cryptography, the parser of dates, and the text
-- of a number.
pub record Services : Type 0 where
  pub platform : Platform
  pub parse_date : String → Option Instant
  pub decimal : ℕ → String

-- The body as `readRawBody` gives it, or the error that it rejects with.
pub data Body : Type 0 where
  unreadable : String → Body
  body : String → Json → Body

-- A request: two headers as `headerStr` gives them, and the body.
pub record FederationRequest : Type 0 where
  pub pubkey_header : Option String
  pub sig_header : Option String
  pub content : Body

-- The fields that the handler takes from the body.
pub record CallBody : Type 0 where
  pub delegation_id : String
  pub tool : String
  pub agent_id : String
  pub request_id : String
  pub timestamp : String
  pub justification : Option String
  pub arguments : Option Fields

pub data Response : Type 0 where
  success : Json → Response
  failure : ℕ → String → Response
  -- An exception leaves the handler; the server's catch-all answers.
  thrown : String → Response

-- An early return: the response, and the audit entry that is appended, if any.
pub record Rejection : Type 0 where
  pub response : Response
  pub audited : List AuditAppendInput

pub data Step (A : Type 0) : Type 0 where
  go : A → Step A
  reject : Rejection → Step A

infixl 5 ◌>>=◌
abbrev pub ◌>>=◌ : {A B : Type 0} → Step A → (A → Step B) → Step B
m >>= f = elim m [ go a ↦ f a | reject r ↦ reject r ]

abbrev pub default_user_id : String
default_user_id = "local-user"

-- The value at a key of an object.
unfoldable pub field_at : String → Fields → Option Json
field_at key Fields.end = none
field_at key (Fields.field k v fs) =
    let rest = field_at key fs in if str_eq k key then some v else rest

-- `stringField`
unfoldable pub string_of : Option Json → Option String
string_of (some (Json.string s)) = some s
string_of other = none

unfoldable pub string_field : Json → String → Option String
string_field (Json.object fs) key = string_of (field_at key fs)
string_field other key = none

-- `recordField`
unfoldable pub record_of : Option Json → Option Fields
record_of (some (Json.object fs)) = some fs
record_of other = none

unfoldable pub record_field : Json → String → Option Fields
record_field (Json.object fs) key = record_of (field_at key fs)
record_field other key = none

-- A text that passes a JavaScript test: present and not empty.
unfoldable pub truthy : Option String → Option String
truthy none = none
truthy (some s) = if str_eq s "" then none else some s

-- `slice(0, n)`
unfoldable pub take_chars : ℕ → String → String
take_chars zero s = ""
take_chars (suc n) String.[] = ""
take_chars (suc n) (String.◌∷◌ c s) = String.◌∷◌ c (take_chars n s)

-- `b64urlDecode`
unfoldable pub b64url_decode : Platform → String → Result Bytes
b64url_decode platform input =
    if str_eq input ""
    then err "invalid base64url character"
    else if all_base64url input
    then ok (platform.decode_base64 (pad input))
    else err "invalid base64url character"

-- What is known of a call when an entry about it is written.
pub record Known : Type 0 where
  pub pubkey : Option String
  pub agent_id : Option String
  pub tool : Option String
  pub delegation : Option DelegationGrantedRow
  pub duration_ms : ℕ

unfoldable pub plugin_of : Option DelegationGrantedRow → String
plugin_of none = "federation"
plugin_of (some d) = d.plugin

unfoldable pub scope_of : Option DelegationGrantedRow → String
scope_of none = "federation:external"
scope_of (some d) = d.scope

-- `writeFederationSecurityAudit`
unfoldable pub security_audit : Known → String → String → AuditAppendInput
security_audit k code message = record {
  agent_id = Option.get_or k.agent_id "unknown-attacker";
  user_id = default_user_id;
  tool_name = Option.get_or k.tool "(unknown)";
  plugin = plugin_of k.delegation;
  scope = scope_of k.delegation;
  justification = none;
  decision = AuditDecision.denied;
  grant_id = none;
  duration_ms = k.duration_ms;
  error = some (str_append "[" (str_append code (str_append "] " message)));
  delegated_by = k.pubkey;
  delegated_to = none;
  decision_federated = some "federated_denied";
  error_class = none;
  error_code = none;
  actor_type = none;
  actor_id = none;
  request_id = none;
}

-- A security entry and an error response with one code.
abbrev pub deny : {A : Type 0} → Known → ℕ → String → String → Step A
deny k status code message =
    reject (record { response = failure status code; audited = security_audit k code message ∷ [] })
