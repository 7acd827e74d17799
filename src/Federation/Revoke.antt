-- ===== src/Federation/Revoke.antt =====
-- packages/hub-core/src/server.ts, `handleListDelegations` and `handleRevokeDelegation`.
pub mod Stops
use pdatahub.Delegations.{DelegationGrantedRow, GrantedTable, list_granted, revoke_granted}
use pdatahub.Delegations.Canonical.{Json, Items, Fields}
use pdatahub.Prelude.{[], none, some, ℕ, Option, ◌∷◌, String, if◌then◌else◌}
use pdatahub.Federation.Call.{Response, success, failure}

-- The texts of a number and of a time.
pub record Texts : Type 0 where
  pub decimal : ℕ → String
  pub iso : ℕ → String

unfoldable pub text_or_null : Option String → Json
text_or_null none = Json.null
text_or_null (some s) = Json.string s

unfoldable pub granted_json : Texts → DelegationGrantedRow → Json
granted_json texts r = Json.object (
    Fields.field "delegation_id" (Json.string r.delegation_id) (
      Fields.field "peer_verify_key" (Json.string r.peer_verify_key) (
        Fields.field "peer_hub_name" (text_or_null r.peer_hub_name) (
          Fields.field "plugin" (Json.string r.plugin) (
            Fields.field "tool" (Json.string r.tool) (
              Fields.field "scope" (Json.string r.scope) (
                Fields.field "expires_at" (Json.string (texts.iso r.expires_at)) (
                  Fields.field "revoked" (Json.number (texts.decimal r.revoked)) (
                    Fields.field "created_at" (Json.string (texts.iso r.created_at))
                      Fields.end)))))))))

unfoldable pub granted_items : Texts → GrantedTable → Items
granted_items texts [] = Items.nil
granted_items texts (r ∷ rows) = Items.cons (granted_json texts r) (granted_items texts rows)

-- `handleListDelegations`
unfoldable pub handle_list_delegations : Texts → Option GrantedTable → Response
handle_list_delegations texts none =
    success (Json.object (Fields.field "delegations" (Json.array Items.nil) Fields.end))
handle_list_delegations texts (some table) = success (
    Json.object (
      Fields.field "delegations" (Json.array (granted_items texts (list_granted table)))
        Fields.end))

-- `handleRevokeDelegation`: the table, which is none if federation is not set up, and the response.
unfoldable pub handle_revoke_delegation :
    String → Option GrantedTable → Option GrantedTable × Response
handle_revoke_delegation id none = (none, failure 503 "FEDERATION_NOT_INITIALIZED")
handle_revoke_delegation id (some table) =
    let (left, changed) = revoke_granted id table in
    (
      some left,
      if changed
          then success (Json.object (Fields.field "revoked" (Json.string id) Fields.end))
          else failure 404 "DELEGATION_NOT_FOUND",
    )
