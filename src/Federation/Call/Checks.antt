-- ===== src/Federation/Call/Checks.antt =====
-- `handleFederationCall`, steps 1 to 6: the checks before the call counts as received. None of them
-- changes the state but for the audit entry of a rejection.
use mathlib.Core.Option
use pdatahub.Audit.{AuditAppendInput, AuditDecision}
use pdatahub.Nonces.{NonceTable, is_seen_recently}
use pdatahub.Delegations.{
  Bytes, DelegationGrantedRow, GrantedTable, get_granted, is_expired, is_revoked,
}
use pdatahub.Delegations.Blob.{drop_chars}
use pdatahub.Delegations.Canonical.{Json}
use pdatahub.Federation.Call.{
  Services, FederationRequest, Body, CallBody, Step, go, reject, failure, Known, deny, ◌>>=◌,
  truthy, take_chars, b64url_decode, string_field, record_field, skew_ms, default_user_id,
}
use pdatahub.Prelude.{
  str_append, ltb, length, starts_with, [], none, some, ok, err, ℕ, String, Option, if◌then◌else◌,
  ◌-◌, ◌==◌, ◌∷◌, not, str_eq,
}

abbrev pub max_skew_ms : ℕ
max_skew_ms = 300000

-- What the checks read of the hub, at one instant: nothing is awaited between them.
pub record Hub : Type 0 where
  pub started_at : ℕ
  pub now : ℕ
  pub delegations : GrantedTable
  pub nonces : NonceTable

-- The headers and the body.
pub record Received : Type 0 where
  pub pubkey : String
  pub signature : String
  pub raw : String
  pub json : Json

-- A call whose signature holds.
pub record Signed : Type 0 where
  pub pubkey : String
  pub call : CallBody

-- A call under a delegation.
pub record Authorized : Type 0 where
  pub pubkey : String
  pub call : CallBody
  pub delegation : DelegationGrantedRow

abbrev pub elapsed : Hub → ℕ
elapsed hub = hub.now - hub.started_at

abbrev pub nothing_known : Hub → Option String → Known
nothing_known hub pubkey = record {
  pubkey = pubkey;
  agent_id = none;
  tool = none;
  delegation = none;
  duration_ms = elapsed hub;
}

abbrev pub known_call : Hub → String → CallBody → Known
known_call hub pubkey call = record {
  pubkey = some pubkey;
  agent_id = some call.agent_id;
  tool = some call.tool;
  delegation = none;
  duration_ms = elapsed hub;
}

abbrev pub known_delegation : Hub → String → CallBody → DelegationGrantedRow → Known
known_delegation hub pubkey call d = record (known_call hub pubkey call) { delegation = some d }

unfoldable pub read_content : Body → String → String → Step Received
read_content (Body.unreadable e) pubkey sig =
    reject (record { response = failure 400 "INVALID_BODY"; audited = [] })
read_content (Body.body raw json) pubkey sig =
    go (record { pubkey = pubkey; signature = sig; raw = raw; json = json })

abbrev present_text : Option String → String
present_text none = "missing"
present_text (some s) = "present"

unfoldable pub missing_headers : Hub → FederationRequest → Step Received
unfolding truthy
missing_headers hub req =
    deny (nothing_known hub req.pubkey_header) 401 "MISSING_FEDERATION_HEADERS" (
      str_append "pubkey=" (
        str_append (Option.get_or req.pubkey_header "missing")
          (str_append " sig=" (present_text (truthy req.sig_header)))))

-- Step 1.
unfoldable pub read_headers : Hub → FederationRequest → Step Received
unfolding truthy
read_headers hub req = elim (truthy req.pubkey_header) [
  | none ↦ missing_headers hub req
  | some pubkey ↦ elim (truthy req.sig_header) [
    | none ↦ missing_headers hub req
    | some sig ↦ read_content req.content pubkey sig
  ]
]

module _ (services : Services) where
  open services use {platform, parse_date, decimal}

  -- Step 2.
  unfoldable pub decode_pubkey : Hub → Received → Step Bytes
  unfolding take_chars
  decode_pubkey hub r =
      let known = nothing_known hub (some r.pubkey) in
      if starts_with r.pubkey "ed25519:"
      then elim (b64url_decode platform (drop_chars 8 r.pubkey)) [
        | err e ↦ deny known 401 "INVALID_PUBKEY" (str_append "decode failed: " e)
        | ok key ↦
            if length key == 32
            then go key
            else deny known 401 "INVALID_PUBKEY"
                (str_append "wrong length: " (decimal (length key)))
      ]
      else deny known 401 "INVALID_PUBKEY" (str_append "invalid prefix: " (take_chars 16 r.pubkey))

  abbrev flag : String → Option String → String
  flag name value =
      str_append name (str_append "=" (elim value [ none ↦ "false" | some s ↦ "true" ]))

  -- The fields of the body; a field that is no text or empty is missing.
  unfoldable pub parse_body : Hub → Received → Step CallBody
  unfolding truthy string_field record_field
  parse_body hub r =
      let delegation_id = truthy (string_field r.json "delegation_id") in
      let tool = truthy (string_field r.json "tool") in
      let agent_id = truthy (string_field r.json "agent_id") in
      let request_id = truthy (string_field r.json "request_id") in
      let timestamp = truthy (string_field r.json "timestamp") in
      let known : Known = record (nothing_known hub (some r.pubkey)) {
        agent_id = string_field r.json "agent_id";
        tool = string_field r.json "tool";
      } in
      let missing : Step CallBody = deny known 400 "INVALID_BODY" (
        str_append "missing fields: " (
          str_append (flag "delegation_id" delegation_id) (
            str_append (flag " tool" tool) (
              str_append (flag " agent_id" agent_id)
                (str_append (flag " request_id" request_id) (flag " timestamp" timestamp)))))) in
      elim delegation_id [
        | none ↦ missing
        | some d ↦ elim tool [
          | none ↦ missing
          | some t ↦ elim agent_id [
            | none ↦ missing
            | some a ↦ elim request_id [
              | none ↦ missing
              | some q ↦ elim timestamp [
                | none ↦ missing
                | some w ↦ go (record {
                  delegation_id = d;
                  tool = t;
                  agent_id = a;
                  request_id = q;
                  timestamp = w;
                  justification = string_field r.json "justification";
                  arguments = record_field r.json "arguments";
                })
              ]
            ]
          ]
        ]
      ]

  -- Step 3.
  unfoldable pub check_clock : Hub → String → CallBody → Step (Unit {0})
  unfolding skew_ms
  check_clock hub pubkey call = elim (parse_date call.timestamp) [
    | none ↦
        deny (known_call hub pubkey call) 400 "INVALID_TIMESTAMP"
          (str_append "unparseable: " call.timestamp)
    | some ts ↦
        if ltb max_skew_ms (skew_ms hub.now ts)
        then deny (known_call hub pubkey call) 401 "CLOCK_SKEW"
            (str_append "skew=" (str_append (decimal (skew_ms hub.now ts)) "ms window=300s"))
        else go tt
  ]

  -- Step 4.
  unfoldable pub check_call_signature : Hub → Received → Bytes → CallBody → Step (Unit {0})
  check_call_signature hub r key call =
      let known = known_call hub r.pubkey call in
      elim (b64url_decode platform r.signature) [
        | err e ↦ deny known 401 "INVALID_SIGNATURE" (str_append "decode failed: " e)
        | ok sig ↦
            if length sig == 64
            then if platform.verify (platform.encode_text r.raw) sig key
              then go tt
              else deny known 401 "INVALID_SIGNATURE" "signature mismatch (verify failed)"
            else deny known 401 "INVALID_SIGNATURE"
                (str_append "wrong length: " (decimal (length sig)))
      ]

  -- Steps 1 to 4.
  unfoldable pub check_request : Hub → FederationRequest → Step Signed
  check_request hub req = do
    r ← read_headers hub req
    key ← decode_pubkey hub r
    call ← parse_body hub r
    _ ← check_clock hub r.pubkey call
    _ ← check_call_signature hub r key call
    go (record { pubkey = r.pubkey; call = call })

-- Step 5.
unfoldable pub check_replay : Hub → Signed → Step (Unit {0})
check_replay hub s =
    if is_seen_recently s.call.request_id hub.now hub.nonces
    then deny (known_call hub s.pubkey s.call) 409 "REPLAY"
        (str_append "request_id=" (str_append s.call.request_id " seen within replay window"))
    else go tt

-- An entry of the handler itself.
unfoldable pub call_audit :
    String
    → CallBody
    → String
    → String
    → AuditDecision
    → Option String
    → ℕ
    → Option String
    → Option String
    → AuditAppendInput
call_audit pubkey call plugin scope decision grant_id duration error federated = record {
  agent_id = call.agent_id;
  user_id = default_user_id;
  tool_name = call.tool;
  plugin = plugin;
  scope = scope;
  justification = call.justification;
  decision = decision;
  grant_id = grant_id;
  duration_ms = duration;
  error = error;
  delegated_by = some pubkey;
  delegated_to = none;
  decision_federated = federated;
  error_class = none;
  error_code = none;
  actor_type = none;
  actor_id = none;
  request_id = none;
}

-- An error response with the entry that a delegation is no longer good.
unfoldable pub refuse_call :
    {A : Type 0} → Hub → Signed → DelegationGrantedRow → ℕ → String → String → Step A
refuse_call hub s d status code error = reject (record {
  response = failure status code;
  audited =
      call_audit s.pubkey s.call d.plugin d.scope AuditDecision.denied none (elapsed hub)
        (some error) none
      ∷ [];
})

-- Step 6, once the delegation is found.
unfoldable pub check_row : Hub → Signed → DelegationGrantedRow → Step Authorized
unfolding take_chars refuse_call
check_row hub s d =
    let known = known_delegation hub s.pubkey s.call d in
    if is_revoked d.revoked
    then refuse_call hub s d 403 "DELEGATION_REVOKED" "delegation revoked"
    else if is_expired (some d.expires_at) hub.now
    then refuse_call hub s d 403 "DELEGATION_EXPIRED" "delegation expired"
    else if not (str_eq d.peer_verify_key s.pubkey)
    then deny known 403 "PEER_MISMATCH" (
        str_append "pubkey=" (
          str_append (take_chars 16 s.pubkey) (
            str_append "... vs delegation.peer_verify_key="
              (str_append (take_chars 16 d.peer_verify_key) "..."))))
    else if not (str_eq d.tool s.call.tool)
    then deny known 403 "TOOL_MISMATCH" (
        str_append "body.tool=" (str_append s.call.tool (str_append " vs delegation.tool=" d.tool)))
    else go (record { pubkey = s.pubkey; call = s.call; delegation = d })

-- Step 6.
unfoldable pub check_delegation : Hub → Signed → Step Authorized
check_delegation hub s = elim (get_granted s.call.delegation_id hub.delegations) [
  | none ↦
      deny (known_call hub s.pubkey s.call) 403 "DELEGATION_NOT_FOUND"
        (str_append "delegation_id=" s.call.delegation_id)
  | some d ↦ check_row hub s d
]

-- Steps 1 to 6.
unfoldable pub authorize : Services → Hub → FederationRequest → Step Authorized
authorize services hub req = do
  s ← check_request services hub req
  _ ← check_replay hub s
  check_delegation hub s
