-- ===== src/Federation/Create.antt =====
-- packages/hub-core/src/server.ts, `handleCreateDelegation`: this hub lets a peer call a tool. The text of
-- an error response is left out. `expires_at` is kept as text in the
-- blob and as its time in the row.
pub mod Issued
mod Tests
use mathlib.Core.Option
use pdatahub.Delegations.{Bytes, CreateGrantedInput, GrantedTable, create_granted}
use pdatahub.Delegations.Blob.{
  Platform, Party, BlobBody, DelegationBlob, sign_delegation, bytes_to_base64url, body_json, pad,
  drop_chars,
}
use pdatahub.Delegations.Canonical.{Json, Fields}
use pdatahub.Federation.Call.{
  Response, success, failure, thrown, Instant, Step, go, reject, ◌>>=◌, string_field, truthy,
}
use pdatahub.Federation.Invoke.{InvokeBody}
use pdatahub.Prelude.{
  String, [], none, some, ok, err, Option, Dict, ℕ, if◌then◌else◌, Bool, starts_with, leb, str_eq,
  Result, lookup,
}

-- A tool as the plugin's manifest declares it, and the plugin that the registry finds for a tool.
pub record ToolDef : Type 0 where
  pub scope : String
  pub input_schema : Option Json

pub record Manifest : Type 0 where
  pub name : String
  pub tools : Dict ToolDef

-- `HubIdentity`, as far as the handler reads it.
pub record Identity : Type 0 where
  pub hub_name : String
  pub verify_key : String
  pub fingerprint : String
  pub magic_dns : Option String

-- The cryptography, the date parser, the registry, the hub's identity, the clock and the UUID that is drawn.
pub record CreateContext : Type 0 where
  pub platform : Platform
  pub parse_date : String → Option Instant
  pub stringify : Json → String
  pub spaced_hex : Bytes → String
  pub get_plugin : String → Option Manifest
  pub identity_exists : Bool
  pub load_identity : Result Identity
  pub now : ℕ
  pub new_id : String

pub record DelegationRequest : Type 0 where
  pub peer_verify_key : String
  pub plugin : String
  pub tool : String
  pub scope : String
  pub expires_at : String
  pub peer_hub_name : Option String

-- A request that passes all tests, with the time of its expiry, the tool's declaration and the identity.
pub record Granting : Type 0 where
  pub request : DelegationRequest
  pub expires : ℕ
  pub tool : ToolDef
  pub identity : Identity

-- The response, the table, and the blob that was issued.
pub record Created : Type 0 where
  pub response : Response
  pub rows : GrantedTable
  pub issued : Option DelegationBlob

abbrev pub deny : {A : Type 0} → ℕ → String → Step A
deny status code = reject (record { response = failure status code; audited = [] })

-- A field at the end of an object.
unfoldable pub add_field : String → Json → Fields → Fields
add_field k v Fields.end = Fields.field k v Fields.end
add_field k v (Fields.field j w fs) = Fields.field j w (add_field k v fs)

-- `{ ...blobBody, signature }`
unfoldable pub with_signature : String → Json → Json
with_signature signature (Json.object fs) =
    Json.object (add_field "signature" (Json.string signature) fs)
with_signature signature other = other

unfoldable pub issuer_json : Identity → Json
issuer_json i = Json.object (
    Fields.field "hub_name" (Json.string i.hub_name) (
      Fields.field "verify_key" (Json.string i.verify_key) (
        Fields.field "fingerprint" (Json.string i.fingerprint) (
          Fields.field "magic_dns" (elim i.magic_dns [ none ↦ Json.null | some d ↦ Json.string d ])
            Fields.end))))

-- A field that must be a text and not empty.
unfoldable pub required : Json → String → Step String
required json key = elim (truthy (string_field json key)) [
  | none ↦ deny 400 "INVALID_BODY"
  | some s ↦ go s
]

unfoldable pub create_fields : Json → Step DelegationRequest
create_fields json = required json "peer_verify_key" >>= λ key. required json "plugin" >>= λ plugin.
    required json "tool" >>= λ tool. required json "scope" >>= λ scope.
    required json "expires_at" >>= λ expires_at. go (record {
      peer_verify_key = key;
      plugin = plugin;
      tool = tool;
      scope = scope;
      expires_at = expires_at;
      peer_hub_name = string_field json "peer_hub_name";
    })

unfoldable pub check_peer_key : DelegationRequest → Step (Unit {0})
check_peer_key r =
    if starts_with r.peer_verify_key "ed25519:" then go tt else deny 400 "INVALID_PUBKEY"

unfoldable pub in_future : ℕ → Instant → Step ℕ
in_future now (Instant.before t) = deny 400 "EXPIRED_AT_IN_PAST"
in_future now (Instant.since t) = if leb t now then deny 400 "EXPIRED_AT_IN_PAST" else go t

module _ (ctx : CreateContext) where
  unfoldable pub check_expiry : DelegationRequest → Step ℕ
  check_expiry r = elim (ctx.parse_date r.expires_at) [
    | none ↦ deny 400 "INVALID_TIMESTAMP"
    | some t ↦ in_future ctx.now t
  ]

  -- The plugin, the tool and the scope are those of the manifest.
  unfoldable pub check_manifest : DelegationRequest → Manifest → Step ToolDef
  check_manifest r m =
      if str_eq m.name r.plugin
      then elim (lookup r.tool m.tools) [
        | none ↦ deny 404 "UNKNOWN_TOOL"
        | some d ↦ if str_eq d.scope r.scope then go d else deny 400 "SCOPE_MISMATCH"
      ]
      else deny 400 "PLUGIN_MISMATCH"

  unfoldable pub check_tool : DelegationRequest → Step ToolDef
  check_tool r = elim (ctx.get_plugin r.tool) [
    | none ↦ deny 404 "UNKNOWN_TOOL"
    | some m ↦ check_manifest r m
  ]

  -- An exception of `load` leaves the handler.
  unfoldable pub own_identity : Step Identity
  own_identity =
      if ctx.identity_exists
      then elim ctx.load_identity [
        | err e ↦ reject (record { response = thrown e; audited = [] })
        | ok identity ↦ go identity
      ]
      else deny 503 "IDENTITY_NOT_INITIALIZED"

  unfoldable pub check_create : Json → Step Granting
  check_create json = create_fields json >>= λ r. check_peer_key r >>= λ u.
      check_expiry r >>= λ expires. check_tool r >>= λ tool. own_identity >>= λ identity.
      go (record { request = r; expires = expires; tool = tool; identity = identity })

  -- `blobBody`
  unfoldable pub blob_body : Granting → BlobBody
  blob_body g = record {
    version = "1";
    delegation_id = ctx.new_id;
    issuer = record {
      hub_name = g.identity.hub_name;
      verify_key = g.identity.verify_key;
      fingerprint = g.identity.fingerprint;
      magic_dns = Option.get_or g.identity.magic_dns "";
    };
    subject_verify_key = g.request.peer_verify_key;
    subject_fingerprint =
        ctx.spaced_hex (ctx.platform.decode_base64 (pad (drop_chars 8 g.request.peer_verify_key)));
    plugin = g.request.plugin;
    tool = g.request.tool;
    scope = g.request.scope;
    input_schema = Option.get_or g.tool.input_schema Json.null;
    expires_at = g.request.expires_at;
  }

  unfoldable pub granted_input : Granting → String → CreateGrantedInput
  granted_input g signature = record {
    delegation_id = some ctx.new_id;
    peer_verify_key = g.request.peer_verify_key;
    peer_hub_name = g.request.peer_hub_name;
    plugin = g.request.plugin;
    tool = g.request.tool;
    scope = g.request.scope;
    expires_at = g.expires;
    signature = ctx.platform.decode_base64 signature;
  }

  abbrev pub leave : Response → GrantedTable → Created
  leave response rows = record { response = response; rows = rows; issued = none }

  -- The blob as text, in base64url.
  unfoldable pub blob_text : Granting → String → String
  blob_text g signature = bytes_to_base64url ctx.platform (
      ctx.platform.encode_text (ctx.stringify (with_signature signature (body_json (blob_body g)))))

  unfoldable pub created_json : Granting → String → Json
  created_json g signature = Json.object (
      Fields.field "delegation_id" (Json.string ctx.new_id) (
        Fields.field "blob" (Json.string (blob_text g signature))
          (Fields.field "issuer" (issuer_json g.identity) Fields.end)))

  -- The row is stored, and the blob is the answer.
  unfoldable pub store_grant : Granting → String → GrantedTable → Created
  store_grant g signature rows =
      elim (create_granted (granted_input g signature) ctx.new_id ctx.now rows) [
        | err e ↦ leave (thrown e) rows
        | ok (id, rows') ↦ record {
          response = success (created_json g signature);
          rows = rows';
          issued = some (record { body = blob_body g; signature = some signature });
        }
      ]

  unfoldable pub sign_grant : Granting → Option GrantedTable → Created
  sign_grant g table = elim (sign_delegation ctx.platform (blob_body g)) [
    | err e ↦ leave (thrown e) (Option.get_or table [])
    | ok signature ↦ elim table [
      | none ↦ leave (failure 503 "FEDERATION_NOT_INITIALIZED") []
      | some rows ↦ store_grant g signature rows
    ]
  ]

  -- `handleCreateDelegation`. There is no table if the hub was built without federation.
  unfoldable pub handle_create_delegation : InvokeBody → Option GrantedTable → Created
  handle_create_delegation (InvokeBody.unreadable e) table =
      leave (failure 400 "INVALID_BODY") (Option.get_or table [])
  handle_create_delegation (InvokeBody.readable json) table = elim (check_create json) [
    | reject r ↦ leave r.response (Option.get_or table [])
    | go g ↦ sign_grant g table
  ]
