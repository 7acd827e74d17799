-- ===== src/Federation/Create/Tests.antt =====
-- `handleCreateDelegation`: tests, and the theorem at a concrete request.
use pdatahub.Delegations.Blob.{Platform, sign_delegation, serialize_blob, body_json}
use pdatahub.Delegations.Canonical.{Json, Fields, serialize_canonical, str_le}
use pdatahub.Federation.Call.{Instant, failure, string_field, string_of, field_at, truthy}
use pdatahub.Federation.Invoke.{InvokeBody, text_field}
use pdatahub.Federation.Create.{
  CreateContext, required, create_fields, check_peer_key, in_future, check_expiry, check_manifest,
  check_tool, check_create, handle_create_delegation, own_identity, sign_grant, store_grant,
  create_granted, granted_input, blob_body,
}
use pdatahub.Delegations.{has_granted, create_granted, granted_row}
use pdatahub.Prelude.{String, [], none, some, true, refl, ok, ◌∷◌, lookup, ◌≡◌}

abbrev platform : Platform
platform = record {
  quote = λ s. s;
  encode_base64 = λ b. "c2ln";
  decode_base64 = λ s. [];
  encode_text = λ s. [];
  sign = λ b. [];
  verify = λ m s k. true;
}

abbrev context : CreateContext
context = record {
  platform = platform;
  parse_date = λ s. some (Instant.since 500);
  stringify = λ v. "{}";
  spaced_hex = λ b. "00 00";
  get_plugin = λ tool. some (record {
    name = "gmail";
    tools = ("search", record { scope = "gmail.read"; input_schema = none }) ∷ [];
  });
  identity_exists = true;
  load_identity = ok (record {
    hub_name = "bob";
    verify_key = "ed25519:BBBB";
    fingerprint = "11 11";
    magic_dns = none;
  });
  now = 100;
  new_id = "d1";
}

abbrev request : String → Json
request scope = Json.object (
    text_field "peer_verify_key" "ed25519:AAAA" (
      text_field "plugin" "gmail" (
        text_field "tool" "search"
          (text_field "scope" scope (text_field "expires_at" "2030-01-01T00:00:00Z" Fields.end)))))

-- A broader scope than the tool's is refused.
broader_scope :
    (handle_create_delegation context
      (InvokeBody.readable (request "gmail.write"))
      (some [])).response
    ≡ failure 400 "SCOPE_MISMATCH"
unfolding handle_create_delegation check_create create_fields required string_field string_of
    field_at truthy check_peer_key check_expiry in_future check_tool check_manifest lookup
broader_scope = refl

row_added :
    has_granted "d1"
      (handle_create_delegation context (InvokeBody.readable (request "gmail.read")) (some [])).rows
    ≡ true
unfolding handle_create_delegation check_create create_fields required string_field string_of
    field_at truthy check_peer_key check_expiry in_future check_tool check_manifest lookup
    own_identity sign_grant sign_delegation serialize_blob serialize_canonical store_grant
    create_granted granted_input has_granted granted_row blob_body body_json str_le
row_added = refl
