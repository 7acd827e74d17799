-- ===== src/Delegations/Tests.antt =====
-- delegation.ts: tests, and the theorems at concrete tables and blobs.
use pdatahub.Delegations.{
  Bytes, CreateReceivedInput, GrantedTable, ReceivedTable, received_row, find_received_match,
  is_expired, is_match, sort_latest, insert_latest,
}
use pdatahub.Delegations.Canonical.{
  Json, Items, Fields, str_le, sort_parts, join, all_ok, wrap, at_key, serialize_canonical,
}
use pdatahub.Delegations.Canonical.KeyOrder.{Alike, AlikeFields, serialize_canonical-Alike}
use pdatahub.Delegations.Blob.{
  Platform, DelegationBlob, body_json, is_base64url, all_base64url, count_chars, equal_signs, pad,
  drop_chars, base64url_to_bytes, serialize_blob, check_signature, check_encoding, check_key,
  verify_delegation,
}
use pdatahub.Delegations.Blob.Checks.{IsSigned, verify_delegation_iff}
use pdatahub.Prelude.{
  ◌≡◌, ◌↔◌, arith, [], none, some, true, zero, suc, refl, ok, err, String, ◌≢◌, ℕ, if◌then◌else◌,
  ◌∷◌, map, str_append, eq_iff, str_eq,
}

abbrev quote : String → String
quote s = str_append "\"" (str_append s "\"")

abbrev one_way : Fields
one_way =
    Fields.field "b" (Json.number "1")
      (Fields.field "a" (Json.array (Items.cons Json.null Items.nil)) Fields.end)

abbrev other_way : Fields
other_way =
    Fields.field "a" (Json.array (Items.cons Json.null Items.nil))
      (Fields.field "b" (Json.number "1") Fields.end)

canonical : serialize_canonical quote (Json.object one_way) ≡ ok "{\"a\":[null],\"b\":1}"
unfolding serialize_canonical sort_parts str_le join all_ok wrap at_key
canonical = refl

no_undefined :
    serialize_canonical quote (Json.object (Fields.field "k" Json.undefined Fields.end))
    ≡ err "CanonicalJson: undefined value at key 'k'"
unfolding serialize_canonical sort_parts join all_ok wrap at_key
no_undefined = refl

b≢a : ◌≢◌ {A = String} "b" "a"
b≢a = ground (arith, eq_iff "b" "a")

swapped : Alike (Json.object one_way) (Json.object other_way)
swapped = Alike.objects (AlikeFields.swap "b" "a" _ _ Fields.end b≢a)

serialize_canonical-Alike_example :
    serialize_canonical quote (Json.object one_way)
    ≡ serialize_canonical quote (Json.object other_way)
serialize_canonical-Alike_example = serialize_canonical-Alike quote swapped

abbrev zeros : ℕ → Bytes
zeros zero = []
zeros (suc n) = 0 ∷ zeros n

abbrev platform : Platform
platform = record {
  quote = quote;
  encode_base64 = λ b. "";
  decode_base64 = λ s. if str_eq s "AAAA" then zeros 32 else zeros 64;
  encode_text = λ s. [];
  sign = λ b. [];
  verify = λ m s k. true;
}

abbrev blob : DelegationBlob
blob = record {
  body = record {
    version = "1";
    delegation_id = "d1";
    issuer = record {
      hub_name = "alice";
      verify_key = "ed25519:AAAA";
      fingerprint = "00";
      magic_dns = "a:8080";
    };
    subject_verify_key = "ed25519:CCCC";
    subject_fingerprint = "01";
    plugin = "gmail";
    tool = "gmail.search";
    scope = "gmail.read";
    input_schema = Json.object one_way;
    expires_at = "2027-01-01T00:00:00Z";
  };
  signature = some "BBBB";
}

verify_delegation_iff_example : (verify_delegation platform blob ≡ ok tt) ↔ IsSigned platform blob
verify_delegation_iff_example = verify_delegation_iff platform blob

accepted : verify_delegation platform blob ≡ ok tt
unfolding verify_delegation check_key check_encoding check_signature serialize_blob body_json
    base64url_to_bytes all_base64url is_base64url pad count_chars equal_signs drop_chars
    serialize_canonical sort_parts str_le join all_ok wrap at_key
accepted = refl

abbrev input : String → String → CreateReceivedInput
input id url = record {
  delegation_id = id;
  peer_verify_key = "ed25519:AAAA";
  peer_hub_name = "alice";
  peer_hub_url = url;
  plugin = "gmail";
  tool = "gmail.search";
  scope = "gmail.read";
  input_schema = none;
  expires_at = "2027";
  signature = [];
}

abbrev received : ReceivedTable
received =
    received_row (input "d1" "http://a") 10
    ∷ record (received_row (input "d2" "http://a") 20) { expires_at = "2028" }
    ∷ record (received_row (input "d3" "http://a") 30) { revoked = 1 }
    ∷ []

latest_first :
    map (λ r. r.delegation_id) (find_received_match "alice" "gmail.search" received)
    ≡ "d2" ∷ "d1" ∷ []
unfolding find_received_match is_match received_row sort_latest insert_latest str_le
latest_first = refl

abbrev granted : GrantedTable
granted =
    record {
      delegation_id = "d1";
      peer_verify_key = "ed25519:AAAA";
      peer_hub_name = none;
      plugin = "gmail";
      tool = "gmail.search";
      scope = "gmail.read";
      expires_at = 5000;
      revoked = 0;
      created_at = 1;
      signature = [];
    }
    ∷ []

expired_now : is_expired (some 5) 5 ≡ true
unfolding is_expired
expired_now = refl
