-- ===== src/Federation/Call/Authorized.antt =====
-- `handleFederationCall`: what holds of a call that passes steps 1 to 6.
use pdatahub.Nonces.{is_seen_recently}
use pdatahub.Delegations.{Bytes, DelegationGrantedRow, get_granted, is_expired, is_revoked}
use pdatahub.Delegations.Blob.{drop_chars}
use pdatahub.Delegations.Canonical.{Json}
use pdatahub.Federation.Call.{
  Services, FederationRequest, Body, CallBody, Instant, Step, go, reject, ◌>>=◌, truthy,
  b64url_decode, skew_ms, string_field, record_field,
}
use pdatahub.Federation.Call.Checks.{
  Hub, Received, Signed, Authorized, read_content, read_headers, missing_headers, decode_pubkey,
  parse_body, check_clock, check_call_signature, check_request, check_replay, check_row,
  refuse_call, check_delegation, authorize, max_skew_ms,
}
use pdatahub.Prelude.{
  ◌≡◌, arith, length, starts_with, eq_iff, Option-cases, Result-cases, none, some, true, inl, inr,
  refl, ok, ℕ, Option, String, ◌∙◌, ◌≤◌, ◌≢◌, ap, ◌<◌, sym, false, subst,
}

-- A step that passes and what follows it.
pub data Passed {A B : Type 0} (m : Step A) (f : A → Step B) (b : B) : Type 0 where
  passed : (a : A) → m ≡ go a → f a ≡ go b → Passed m f b

pub Step-inv :
    {A B : Type 0} (m : Step A) (f : A → Step B) {b : B} → (m >>= f) ≡ go b → Passed m f b
Step-inv (go a) f e = passed a refl e
Step-inv (reject r) f e = absurd (cc)

go_injective : {A : Type 0} {a b : A} → go a ≡ go b → a ≡ b
go_injective e = cc

-- A request whose body holds the call and is signed by the key of its header, at a time near its timestamp.
pub record IsSignedRequest (services : Services) (now : ℕ) (req : FederationRequest) (s : Signed)
    : Type 0 where
  pub header : req.pubkey_header ≡ some s.pubkey
  pub prefix : starts_with s.pubkey "ed25519:" ≡ true
  pub raw : String
  pub json : Json
  pub content : req.content ≡ Body.body raw json
  pub delegation_id : string_field json "delegation_id" ≡ some s.call.delegation_id
  pub tool : string_field json "tool" ≡ some s.call.tool
  pub agent_id : string_field json "agent_id" ≡ some s.call.agent_id
  pub request_id : string_field json "request_id" ≡ some s.call.request_id
  pub timestamp : string_field json "timestamp" ≡ some s.call.timestamp
  pub signature : String
  pub sig_header : req.sig_header ≡ some signature
  pub key : Bytes
  pub key_bytes : b64url_decode services.platform (drop_chars 8 s.pubkey) ≡ ok key
  pub key_length : length key ≡ 32
  pub sig : Bytes
  pub sig_bytes : b64url_decode services.platform signature ≡ ok sig
  pub sig_length : length sig ≡ 64
  pub holds : services.platform.verify (services.platform.encode_text raw) sig key ≡ true
  pub date : Instant
  pub parsed : services.parse_date s.call.timestamp ≡ some date
  pub near : skew_ms now date ≤ max_skew_ms

-- A live delegation to the peer, for the tool.
pub record IsDelegated (now : ℕ) (a : Authorized) : Type 0 where
  pub live : a.delegation.revoked ≢ 1
  pub unexpired : now < a.delegation.expires_at
  pub peer : a.delegation.peer_verify_key ≡ a.pubkey
  pub tool : a.delegation.tool ≡ a.call.tool

pub truthy-eq-some : (o : Option String) {s : String} → truthy o ≡ some s → o ≡ some s
unfolding truthy
truthy-eq-some none h = cc
truthy-eq-some (some r) h = ground arith

read_content-go :
    (b : Body) (pubkey sig : String) {r : Received}
    → read_content b pubkey sig ≡ go r
    → (b ≡ Body.body r.raw r.json) × (r.pubkey ≡ pubkey) × (r.signature ≡ sig)
unfolding read_content
read_content-go (Body.unreadable e) pubkey sig h = cc
read_content-go (Body.body raw json) pubkey sig h = ground arith

read_headers-go :
    (hub : Hub) (req : FederationRequest) {r : Received}
    → read_headers hub req ≡ go r
    → (req.pubkey_header ≡ some r.pubkey)
      × (req.sig_header ≡ some r.signature)
      × (req.content ≡ Body.body r.raw r.json)
unfolding read_headers missing_headers
read_headers-go hub req {r} h = elim (Option-cases (truthy req.pubkey_header)) [
  | inl e ↦ absurd (ground (arith, e))
  | inr (pubkey, e) ↦ elim (Option-cases (truthy req.sig_header)) [
    | inl f ↦ absurd (ground (arith, e, f))
    | inr (sig, f) ↦
        let read : read_content req.content pubkey sig ≡ go r = ground (arith, e, f) in
        let (content, p, s) = read_content-go req.content pubkey sig read in
        (
          truthy-eq-some req.pubkey_header e ∙ ap some (sym p),
          truthy-eq-some req.sig_header f ∙ ap some (sym s),
          content,
        )
  ]
]

module _ (services : Services) where
  decode_pubkey-go :
      (hub : Hub) (r : Received) {key : Bytes}
      → decode_pubkey services hub r ≡ go key
      → (starts_with r.pubkey "ed25519:" ≡ true)
        × (b64url_decode services.platform (drop_chars 8 r.pubkey) ≡ ok key)
        × (length key ≡ 32)
  unfolding decode_pubkey
  decode_pubkey-go hub r h =
      elim (Result-cases (b64url_decode services.platform (drop_chars 8 r.pubkey))) [
        | inl (key, e) ↦ (ground (arith, e), ground (arith, e), ground (arith, e))
        | inr (m, e) ↦ absurd (ground (arith, e))
      ]

  parse_body-go :
      (hub : Hub) (r : Received) {c : CallBody}
      → parse_body services hub r ≡ go c
      → (string_field r.json "delegation_id" ≡ some c.delegation_id)
        × (string_field r.json "tool" ≡ some c.tool)
        × (string_field r.json "agent_id" ≡ some c.agent_id)
        × (string_field r.json "request_id" ≡ some c.request_id)
        × (string_field r.json "timestamp" ≡ some c.timestamp)
  unfolding parse_body
  parse_body-go hub r {c} h = elim (Option-cases (truthy (string_field r.json "delegation_id"))) [
    | inl e ↦ absurd (ground (arith, e))
    | inr (d, ed) ↦ elim (Option-cases (truthy (string_field r.json "tool"))) [
      | inl e ↦ absurd (ground (arith, e, ed))
      | inr (t, et) ↦ elim (Option-cases (truthy (string_field r.json "agent_id"))) [
        | inl e ↦ absurd (ground (arith, e, ed, et))
        | inr (a, ea) ↦ elim (Option-cases (truthy (string_field r.json "request_id"))) [
          | inl e ↦ absurd (ground (arith, e, ed, et, ea))
          | inr (q, eq) ↦ elim (Option-cases (truthy (string_field r.json "timestamp"))) [
            | inl e ↦ absurd (ground (arith, e, ed, et, ea, eq))
            | inr (w, ew) ↦
                let same : record {
                  delegation_id = d;
                  tool = t;
                  agent_id = a;
                  request_id = q;
                  timestamp = w;
                  justification = string_field r.json "justification";
                  arguments = record_field r.json "arguments";
                }
                    ≡ c =
                  go_injective (ground (arith, h, ed, et, ea, eq, ew)) in
                (
                  truthy-eq-some _ ed ∙ ap (λ x. some x.delegation_id) same,
                  truthy-eq-some _ et ∙ ap (λ x. some x.tool) same,
                  truthy-eq-some _ ea ∙ ap (λ x. some x.agent_id) same,
                  truthy-eq-some _ eq ∙ ap (λ x. some x.request_id) same,
                  truthy-eq-some _ ew ∙ ap (λ x. some x.timestamp) same,
                )
          ]
        ]
      ]
    ]
  ]

  check_clock-go :
      (hub : Hub) (pubkey : String) (call : CallBody) {u : Unit {0}}
      → check_clock services hub pubkey call ≡ go u
      → (date : Instant) × (services.parse_date call.timestamp ≡ some date)
        × (skew_ms hub.now date ≤ max_skew_ms)
  unfolding check_clock
  check_clock-go hub pubkey call h = elim (Option-cases (services.parse_date call.timestamp)) [
    | inl e ↦ absurd (ground (arith, e))
    | inr (date, e) ↦ (date, e, ground (arith, e))
  ]

  check_call_signature-go :
      (hub : Hub) (r : Received) (key : Bytes) (call : CallBody) {u : Unit {0}}
      → check_call_signature services hub r key call ≡ go u
      → (sig : Bytes) × (b64url_decode services.platform r.signature ≡ ok sig)
        × (length sig ≡ 64)
        × (services.platform.verify (services.platform.encode_text r.raw) sig key ≡ true)
  unfolding check_call_signature
  check_call_signature-go hub r key call h =
      elim (Result-cases (b64url_decode services.platform r.signature)) [
        | inl (sig, e) ↦ (sig, e, ground (arith, e), ground (arith, e))
        | inr (m, e) ↦ absurd (ground (arith, e))
      ]

  signed_request :
      (hub : Hub) (req : FederationRequest) (r : Received) (key : Bytes) (call : CallBody)
      (u v : Unit {0})
      → read_headers hub req ≡ go r
      → decode_pubkey services hub r ≡ go key
      → parse_body services hub r ≡ go call
      → check_clock services hub r.pubkey call ≡ go u
      → check_call_signature services hub r key call ≡ go v
      → IsSignedRequest services hub.now req (record { pubkey = r.pubkey; call = call })
  signed_request hub req r key call u v read decoded parse clock signed =
      let (header, sig_header, content) = read_headers-go hub req read in
      let (prefix, key_bytes, key_length) = decode_pubkey-go hub r decoded in
      let (delegation_id, tool, agent_id, request_id, timestamp) = parse_body-go hub r parse in
      let (date, parsed, near) = check_clock-go hub r.pubkey call clock in
      let (sig, sig_bytes, sig_length, holds) = check_call_signature-go hub r key call signed in
      record {
        header = header;
        prefix = prefix;
        raw = r.raw;
        json = r.json;
        content = content;
        delegation_id = delegation_id;
        tool = tool;
        agent_id = agent_id;
        request_id = request_id;
        timestamp = timestamp;
        signature = r.signature;
        sig_header = sig_header;
        key = key;
        key_bytes = key_bytes;
        key_length = key_length;
        sig = sig;
        sig_bytes = sig_bytes;
        sig_length = sig_length;
        holds = holds;
        date = date;
        parsed = parsed;
        near = near;
      }

  pub check_request-IsSignedRequest :
      (hub : Hub) (req : FederationRequest) {s : Signed}
      → check_request services hub req ≡ go s
      → IsSignedRequest services hub.now req s
  unfolding check_request
  check_request-IsSignedRequest hub req {s} h = elim (Step-inv (read_headers hub req) _ h) [
    | passed r read h1 ↦ elim (Step-inv (decode_pubkey services hub r) _ h1) [
      | passed key decoded h2 ↦ elim (Step-inv (parse_body services hub r) _ h2) [
        | passed call parsed h3 ↦ elim (Step-inv (check_clock services hub r.pubkey call) _ h3) [
          | passed u clock h4 ↦
              elim (Step-inv (check_call_signature services hub r key call) _ h4) [
                | passed v signed h5 ↦
                    subst (IsSignedRequest services hub.now req) (go_injective h5)
                      (signed_request hub req r key call u v read decoded parsed clock signed)
              ]
        ]
      ]
    ]
  ]

check_row-go :
    (hub : Hub) (s : Signed) (d : DelegationGrantedRow) {a : Authorized}
    → check_row hub s d ≡ go a
    → (a ≡ record { pubkey = s.pubkey; call = s.call; delegation = d })
      × IsDelegated hub.now (record { pubkey = s.pubkey; call = s.call; delegation = d })
unfolding check_row refuse_call is_revoked is_expired
check_row-go hub s d h = (
  ground arith,
  record {
    live = ground arith;
    unexpired = ground arith;
    peer = ground (arith, eq_iff d.peer_verify_key s.pubkey);
    tool = ground (arith, eq_iff d.tool s.call.tool);
  },
)

-- What `authorize` has established of a call: it is signed, it is fresh, and its delegation is in the
-- table, is live, and is for this peer and this tool.
pub record IsAuthorized (services : Services) (hub : Hub) (req : FederationRequest) (a : Authorized)
    : Type 0 where
  pub signed : IsSignedRequest services hub.now req (record { pubkey = a.pubkey; call = a.call })
  pub unseen : is_seen_recently a.call.request_id hub.now hub.nonces ≡ false
  pub found : get_granted a.call.delegation_id hub.delegations ≡ some a.delegation
  pub delegated : IsDelegated hub.now a

check_delegation-go :
    (hub : Hub) (s : Signed) {a : Authorized}
    → check_delegation hub s ≡ go a
    → (d : DelegationGrantedRow) × (get_granted s.call.delegation_id hub.delegations ≡ some d)
      × (check_row hub s d ≡ go a)
unfolding check_delegation
check_delegation-go hub s h =
    elim (Option-cases (get_granted s.call.delegation_id hub.delegations)) [
      | inl e ↦ absurd (ground (arith, e))
      | inr (d, e) ↦ (d, e, ground (arith, e))
    ]

check_replay-go :
    (hub : Hub) (s : Signed) {u : Unit {0}}
    → check_replay hub s ≡ go u
    → is_seen_recently s.call.request_id hub.now hub.nonces ≡ false
unfolding check_replay
check_replay-go hub s h = ground arith

pub authorize-IsAuthorized :
    (services : Services) (hub : Hub) (req : FederationRequest) {a : Authorized}
    → authorize services hub req ≡ go a
    → IsAuthorized services hub req a
unfolding authorize
authorize-IsAuthorized services hub req h = elim (Step-inv (check_request services hub req) _ h) [
  | passed s request h1 ↦ elim (Step-inv (check_replay hub s) _ h1) [
    | passed u replay h2 ↦
        let (d, found, row) = check_delegation-go hub s h2 in
        let (same, delegated) = check_row-go hub s d row in
        rw same (record {
          signed = check_request-IsSignedRequest services hub req request;
          unseen = check_replay-go hub s replay;
          found = found;
          delegated = delegated;
        })
  ]
]
