-- ===== src/Federation/Create/Issued.antt =====
-- `handleCreateDelegation`: what a delegation that is issued rests on.
use mathlib.Core.Option
use pdatahub.Delegations.{DelegationGrantedRow, GrantedTable, has_granted}
use pdatahub.Delegations.Blob.{BlobBody, sign_delegation, pad, drop_chars}
use pdatahub.Delegations.Canonical.{Json}
use pdatahub.Federation.Call.{Instant, string_field}
use pdatahub.Federation.Invoke.{InvokeBody}
use pdatahub.Federation.Create.{
  Identity, ToolDef, Manifest, CreateContext, DelegationRequest, Granting, Created,
}
use pdatahub.Prelude.{
  String, [], none, some, true, false, ok, starts_with, Option, ◌≡◌, ℕ, ◌<◌, ◌++◌, lookup, ◌∷◌,
}

-- A request for a key, with an expiry to come, and for what the plugin's manifest says: its plugin, its
-- tool and its scope.
pub record IsGrantable (ctx : CreateContext) (g : Granting) : Type 0 where
  pub prefix : starts_with g.request.peer_verify_key "ed25519:" ≡ true
  pub parsed : ctx.parse_date g.request.expires_at ≡ some (Instant.since g.expires)
  pub future : ctx.now < g.expires
  pub manifest : Manifest
  pub found : ctx.get_plugin g.request.tool ≡ some manifest
  pub plugin : manifest.name ≡ g.request.plugin
  pub tool : lookup g.request.tool manifest.tools ≡ some g.tool
  pub scope : g.tool.scope ≡ g.request.scope
  pub own : ctx.load_identity ≡ ok g.identity

-- The fields of the request's JSON.
pub record IsRequest (json : Json) (r : DelegationRequest) : Type 0 where
  pub key : string_field json "peer_verify_key" ≡ some r.peer_verify_key
  pub plugin : string_field json "plugin" ≡ some r.plugin
  pub tool : string_field json "tool" ≡ some r.tool
  pub scope : string_field json "scope" ≡ some r.scope
  pub expires_at : string_field json "expires_at" ≡ some r.expires_at
  pub hub_name : string_field json "peer_hub_name" ≡ r.peer_hub_name

-- The blob that the request asks for: from this hub, for the key of the request.
abbrev pub blob_for : CreateContext → DelegationRequest → Identity → ToolDef → BlobBody
blob_for ctx r own tool = record {
  version = "1";
  delegation_id = ctx.new_id;
  issuer = record {
    hub_name = own.hub_name;
    verify_key = own.verify_key;
    fingerprint = own.fingerprint;
    magic_dns = Option.get_or own.magic_dns "";
  };
  subject_verify_key = r.peer_verify_key;
  subject_fingerprint =
      ctx.spaced_hex (ctx.platform.decode_base64 (pad (drop_chars 8 r.peer_verify_key)));
  plugin = r.plugin;
  tool = r.tool;
  scope = r.scope;
  input_schema = Option.get_or tool.input_schema Json.null;
  expires_at = r.expires_at;
}

-- The row that the request asks for, with the time of its expiry.
abbrev pub row_for : CreateContext → DelegationRequest → ℕ → String → DelegationGrantedRow
row_for ctx r expires signature = record {
  delegation_id = ctx.new_id;
  peer_verify_key = r.peer_verify_key;
  peer_hub_name = r.peer_hub_name;
  plugin = r.plugin;
  tool = r.tool;
  scope = r.scope;
  expires_at = expires;
  revoked = 0;
  created_at = ctx.now;
  signature = ctx.platform.decode_base64 signature;
}

-- Nothing is issued and the table stays, or the signed blob that the request asks for is issued and the table gets
-- the row that it asks for, under an id that was free.
pub data IsIssuing (ctx : CreateContext) (body : InvokeBody) (table : Option GrantedTable)
    (o : Created) : Type 0 where
  kept : o.issued ≡ none → o.rows ≡ Option.get_or table [] → IsIssuing ctx body table o
  issued :
      (json : Json) (g : Granting) (signature : String)
      → body ≡ InvokeBody.readable json
      → IsRequest json g.request
      → IsGrantable ctx g
      → sign_delegation ctx.platform (blob_for ctx g.request g.identity g.tool) ≡ ok signature
      → o.issued
        ≡ some
            (record { body = blob_for ctx g.request g.identity g.tool; signature = some signature })
      → has_granted ctx.new_id (Option.get_or table []) ≡ false
      → o.rows ≡ Option.get_or table [] ++ row_for ctx g.request g.expires signature ∷ []
      → IsIssuing ctx body table o
