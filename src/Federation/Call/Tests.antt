-- ===== src/Federation/Call/Tests.antt =====
-- `handleFederationCall`: tests, and the theorems at a concrete call.
use pdatahub.Nonces.{is_seen_recently}
use pdatahub.Nonces.Window.{at_boundary}
use pdatahub.Grants.{find_active, matches, is_active, create, has_grant, new_row, row_to_grant}
use pdatahub.Grants.Ensure.{Approval, ensure_grant, after_approval, create_approved, grant_input}
use pdatahub.Delegations.{
  revoke_granted, has_granted, Bytes, DelegationGrantedRow, GrantedTable, get_granted, is_expired,
  is_revoked,
}
use pdatahub.Delegations.Blob.{
  all_base64url, is_base64url, pad, count_chars, equal_signs, drop_chars,
}
use pdatahub.Delegations.Canonical.{Json, Fields}
use pdatahub.Federation.Limit.{limit_key, check_federated_rate_limit, existing, fresh}
use pdatahub.Federation.Call.{
  Services, FederationRequest, Body, CallBody, failure, Instant, go, skew_ms, truthy, b64url_decode,
  string_field, string_of, field_at, record_field, record_of,
}
use pdatahub.Federation.Call.Checks.{
  Authorized, read_headers, read_content, decode_pubkey, parse_body, check_clock,
  check_call_signature, check_request, check_replay, check_row, check_delegation, authorize,
}
use pdatahub.Federation.Call.Authorized.{IsAuthorized}
use pdatahub.Federation.Call.Run.{
  gave, conclude, HubState, Surroundings, Outcome, stop, invoke, ensure_input, ensure_and_invoke,
  ask_phone, fetch_token, find_plugin, limit_rate, admit_call, hub_at, handle_federation_call,
}
use pdatahub.Federation.Call.Outcomes.{IsGranted, handle-go, handle-IsAuthorized, handle-unapproved}
use pdatahub.Federation.Revoke.{handle_revoke_delegation}
use pdatahub.Federation.Revoke.Stops.{handle_revoke-IsOther}
use pdatahub.Federation.Call.Replayed.{replay_rejection, handle-replayed}
use pdatahub.Prelude.{
  ◌≡◌, sort_desc, ◌≢◌, lookup, insert, arith, [], none, some, true, false, zero, suc, refl, ok, ℕ,
  if◌then◌else◌, String, ◌∷◌, str_eq, subst, sym, ap,
}

abbrev zeros : ℕ → Bytes
zeros zero = []
zeros (suc n) = 0 ∷ zeros n

abbrev services : Services
services = record {
  platform = record {
    quote = λ s. s;
    encode_base64 = λ b. "";
    decode_base64 = λ s. if str_eq s "AAAA" then zeros 32 else zeros 64;
    encode_text = λ s. [];
    sign = λ b. [];
    verify = λ m s k. true;
  };
  parse_date = λ s. some (Instant.since 1000);
  decimal = λ n. "";
}

abbrev delegation : DelegationGrantedRow
delegation = record {
  delegation_id = "d1";
  peer_verify_key = "ed25519:AAAA";
  peer_hub_name = some "bob";
  plugin = "gmail";
  tool = "gmail.search";
  scope = "gmail.read";
  expires_at = 9000000;
  revoked = 0;
  created_at = 1;
  signature = [];
}

abbrev text : String → String → Fields → Fields
text k s fs = Fields.field k (Json.string s) fs

abbrev request : FederationRequest
request = record {
  pubkey_header = some "ed25519:AAAA";
  sig_header = some "BBBB";
  content = Body.body "raw" (
      Json.object (
        text "delegation_id" "d1" (
          text "tool" "gmail.search" (
            text "agent_id" "claude"
              (text "request_id" "r1" (text "timestamp" "now" Fields.end))))));
}

abbrev call : CallBody
call = record {
  delegation_id = "d1";
  tool = "gmail.search";
  agent_id = "claude";
  request_id = "r1";
  timestamp = "now";
  justification = none;
  arguments = none;
}

abbrev around : Approval → Surroundings
around p = record {
  connected_clients = 1;
  get_plugin = λ t. some (record { name = "gmail"; has_oauth = true });
  get_access_token = λ t. ok (some "token");
  approval = p;
  decided_at = 1100;
  ensure = record {
    now = 1100;
    answered_at = 1200;
    approval = p;
    meanwhile = λ rows. rows;
    tool_scope = some "gmail.read";
    new_id = "g1";
  };
  call_tool = λ c fs t. gave (record { payload = none; content = none; is_error = none });
  nothing_error = "";
  finished_at = 1300;
  stringify = λ v. "";
}

abbrev empty : HubState
empty = record { nonces = []; limits = []; grants = [] }

abbrev table : GrantedTable
table = delegation ∷ []

abbrev run : Approval → Outcome
run p = handle_federation_call services (around p) (some table) 1000 1050 request empty

signed :
    check_request services (hub_at 1000 1050 table empty) request
    ≡ go (record { pubkey = "ed25519:AAAA"; call = call })
unfolding check_request read_headers read_content decode_pubkey parse_body check_clock
    check_call_signature skew_ms truthy b64url_decode string_field string_of field_at record_field
    record_of all_base64url is_base64url pad count_chars equal_signs drop_chars
signed = refl

abbrev authorized_call : Authorized
authorized_call = record { pubkey = "ed25519:AAAA"; call = call; delegation = delegation }

authorized : authorize services (hub_at 1000 1050 table empty) request ≡ go authorized_call
unfolding authorize check_replay check_delegation check_row is_seen_recently get_granted is_expired
    is_revoked
authorized = rw signed refl

invoked : (run Approval.approved).invoked ≡ true
unfolding admit_call limit_rate find_plugin fetch_token ask_phone ensure_and_invoke invoke conclude
    check_federated_rate_limit existing fresh limit_key ensure_grant after_approval create_approved
    grant_input find_active matches is_active create has_grant new_row row_to_grant ensure_input
    sort_desc lookup insert
invoked =
    rw (handle-go services (around Approval.approved) table 1000 1050 request empty authorized) refl

handle-IsAuthorized_example :
    (a : Authorized) × IsAuthorized services (hub_at 1000 1050 table empty) request a
    × IsGranted (hub_at 1000 1050 table empty) (around Approval.approved) empty a
handle-IsAuthorized_example =
    handle-IsAuthorized services (around Approval.approved) table 1000 1050 request empty invoked

denied≢approved : Approval.denied ≢ Approval.approved
denied≢approved = λ e. cc

handle-unapproved_example :
    ((run Approval.denied).state.grants ≡ []) × ((run Approval.denied).invoked ≡ false)
handle-unapproved_example =
    handle-unapproved services (around Approval.denied) (some table) 1000 1050 request empty
      denied≢approved

abbrev after : HubState
after = record { nonces = (run Approval.denied).state.nonces; limits = []; grants = [] }

signed_again :
    check_request services (hub_at 1000 2000 table after) request
    ≡ go (record { pubkey = "ed25519:AAAA"; call = call })
unfolding check_request read_headers read_content decode_pubkey parse_body check_clock
    check_call_signature skew_ms truthy b64url_decode string_field string_of field_at record_field
    record_of all_base64url is_base64url pad count_chars equal_signs drop_chars
signed_again = refl

handle-replayed_example :
    handle_federation_call services (around Approval.approved) (some table) 1000 2000 request after
    ≡ stop after
        (failure 409 "REPLAY")
        (replay_rejection
          (hub_at 1000 2000 table after)
          (record { pubkey = "ed25519:AAAA"; call = call })).audited
handle-replayed_example =
    handle-replayed services (around Approval.denied) (around Approval.approved) table table 1000
      1050 1000 2000 request request empty after authorized_call
      (record { pubkey = "ed25519:AAAA"; call = call }) authorized refl signed_again refl
      (unfold at_boundary in refl) (omega arith) (omega arith)

-- The revocation of an unknown delegation is refused and changes no row.
unknown_id :
    handle_revoke_delegation "d2" (some table) ≡ (some table, failure 404 "DELEGATION_NOT_FOUND")
unfolding handle_revoke_delegation revoke_granted has_granted
unknown_id = refl

invoked_later :
    (handle_federation_call services
      (around Approval.approved)
      (handle_revoke_delegation "d2" (some table)).0
      1000
      1050
      request
      empty).invoked
    ≡ true
invoked_later =
    subst
      (λ t.
        (handle_federation_call services (around Approval.approved) t 1000 1050 request
          empty).invoked
        ≡ true)
      (sym (ap (λ r. r.0) unknown_id)) invoked

handle_revoke-IsOther_example :
    (a : Authorized) × IsAuthorized services
      (hub_at 1000 1050 (revoke_granted "d2" table).0 empty)
      request
      a
    × (a.call.delegation_id ≢ "d2")
handle_revoke-IsOther_example =
    handle_revoke-IsOther services (around Approval.approved) "d2" table 1000 1050 request empty
      invoked_later
