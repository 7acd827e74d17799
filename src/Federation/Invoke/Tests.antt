-- ===== src/Federation/Invoke/Tests.antt =====
-- `handleFederationInvoke`: tests, and the theorems at a concrete call.
use pdatahub.Delegations.{DelegationReceivedRow, ReceivedTable}
use pdatahub.Delegations.Blob.{Platform}
use pdatahub.Delegations.Canonical.{Json, Fields}
use pdatahub.Federation.Call.{Services, go}
use pdatahub.Federation.Call.Checks.{Hub, Received, parse_body}
use pdatahub.Federation.Invoke.{
  answered, Outbound, InvokeContext, InvokeInput, outbound_body, text_field,
}
use pdatahub.Federation.Invoke.Received.{sent_call, parse_body-outbound}
use pdatahub.Prelude.{
  ◌≡◌, ◌≢◌, arith, eq_iff, [], none, some, true, false, refl, ok, String, ◌∷◌, str_eq,
}

abbrev platform : Platform
platform = record {
  quote = λ s. s;
  encode_base64 = λ b. "A+/=";
  decode_base64 = λ s. [];
  encode_text = λ s. [];
  sign = λ b. [];
  verify = λ m s k. true;
}

abbrev context : InvokeContext
context = record {
  platform = platform;
  stringify = λ v. "raw";
  decimal = λ n. "";
  parse_date = λ s. some 200;
  identity_exists = true;
  load_identity = ok "ed25519:OWN";
  started_at = 10;
  now = 20;
  finished_at = 30;
  request_id = "r1";
  timestamp = "now";
  request = λ out. answered 403 "no" none;
}

abbrev row : String → String → DelegationReceivedRow
row id expires = record {
  delegation_id = id;
  peer_verify_key = "ed25519:AAAA";
  peer_hub_name = "alice";
  peer_hub_url = "http://alice//";
  plugin = "gmail";
  tool = "search";
  scope = "gmail.read";
  input_schema = none;
  expires_at = expires;
  revoked = 0;
  created_at = 1;
  signature = [];
}

abbrev table : ReceivedTable
table = row "d1" "2027" ∷ row "d2" "2028" ∷ []

abbrev body : Json
body =
    Json.object
      (text_field "tool" "federated__alice__search" (text_field "agent_id" "claude" Fields.end))

abbrev out : Outbound
out = record {
  url = "http://alice/v1/federation/call";
  pubkey = "ed25519:OWN";
  signature = "A-_";
  raw = "raw";
}

abbrev input : InvokeInput
input = record {
  tool = "federated__alice__search";
  arguments = Fields.end;
  agent_id = "claude";
  justification = some "";
}

abbrev services : Services
services = record { platform = platform; parse_date = λ s. none; decimal = λ n. "" }

abbrev peer : Hub
peer = record { started_at = 0; now = 0; delegations = []; nonces = [] }

abbrev received : Received
received = record {
  pubkey = "ed25519:OWN";
  signature = "A-_";
  raw = "raw";
  json = outbound_body (row "d2" "2028") input "r1" "now";
}

differ : (s t : String) → str_eq s t ≡ false → s ≢ t
differ s t h e = ground (arith, eq_iff s t)

parse_body-outbound_example :
    parse_body services peer received ≡ go (sent_call (row "d2" "2028") input "r1" "now")
parse_body-outbound_example =
    parse_body-outbound services peer received (row "d2" "2028") input "r1" "now" refl
      (differ _ _ refl) (differ _ _ refl) (differ _ _ refl) (differ _ _ refl) (differ _ _ refl)
