-- ===== src/Migrations/Tables.antt =====
-- packages/hub-core/src/migrations.ts: the schemas and the list of the migrations.
use pdatahub.Migrations.{Statement, create_table, create_index, add_column, Migration}
use pdatahub.Prelude.{[], List, ℕ, ◌∷◌, ◌++◌}

unfoldable pub audit_log_schema : List Statement
audit_log_schema =
    create_table "audit_log" (
      ("id", "TEXT PRIMARY KEY")
      ∷ ("timestamp", "TEXT NOT NULL")
      ∷ ("agent_id", "TEXT NOT NULL")
      ∷ ("user_id", "TEXT NOT NULL")
      ∷ ("tool_name", "TEXT NOT NULL")
      ∷ ("plugin", "TEXT NOT NULL")
      ∷ ("scope", "TEXT NOT NULL")
      ∷ ("justification", "TEXT")
      ∷ ("decision", "TEXT NOT NULL")
      ∷ ("grant_id", "TEXT")
      ∷ ("duration_ms", "INTEGER NOT NULL")
      ∷ ("error", "TEXT")
      ∷ [])
    ∷ create_index "idx_audit_timestamp" "audit_log" "timestamp DESC"
    ∷ create_index "idx_audit_agent" "audit_log" "agent_id"
    ∷ create_index "idx_audit_user" "audit_log" "user_id"
    ∷ create_index "idx_audit_tool" "audit_log" "tool_name"
    ∷ create_index "idx_audit_decision" "audit_log" "decision"
    ∷ []

unfoldable pub grant_store_schema : List Statement
grant_store_schema =
    create_table "grants" (
      ("grant_id", "TEXT PRIMARY KEY")
      ∷ ("tool_name", "TEXT NOT NULL")
      ∷ ("plugin", "TEXT NOT NULL")
      ∷ ("scope", "TEXT NOT NULL")
      ∷ ("agent_id", "TEXT NOT NULL")
      ∷ ("user_id", "TEXT NOT NULL")
      ∷ ("created_at", "TEXT NOT NULL")
      ∷ ("expires_at", "TEXT NOT NULL")
      ∷ ("revoked", "INTEGER NOT NULL DEFAULT 0")
      ∷ [])
    ∷ create_index "idx_grants_agent" "grants" "agent_id"
    ∷ create_index "idx_grants_tool" "grants" "tool_name"
    ∷ create_index "idx_grants_expires" "grants" "expires_at"
    ∷ []

unfoldable pub token_vault_schema : List Statement
token_vault_schema =
    create_table "token_vault" (
      ("plugin", "TEXT PRIMARY KEY")
      ∷ ("access_token_enc", "BLOB NOT NULL")
      ∷ ("access_token_iv", "BLOB NOT NULL")
      ∷ ("access_token_tag", "BLOB NOT NULL")
      ∷ ("refresh_token_enc", "BLOB")
      ∷ ("refresh_token_iv", "BLOB")
      ∷ ("refresh_token_tag", "BLOB")
      ∷ ("expires_at", "TEXT")
      ∷ ("scope", "TEXT NOT NULL")
      ∷ ("created_at", "TEXT NOT NULL")
      ∷ ("updated_at", "TEXT NOT NULL")
      ∷ [])
    ∷ []

unfoldable pub federation_keys_schema : List Statement
federation_keys_schema =
    create_table "federation_keys" (
      ("id", "INTEGER PRIMARY KEY CHECK (id = 1)")
      ∷ ("verify_key", "TEXT NOT NULL")
      ∷ ("signing_key_enc", "BLOB NOT NULL")
      ∷ ("signing_key_iv", "BLOB NOT NULL")
      ∷ ("signing_key_tag", "BLOB NOT NULL")
      ∷ ("hub_name", "TEXT NOT NULL")
      ∷ ("magic_dns", "TEXT")
      ∷ ("fingerprint", "TEXT NOT NULL")
      ∷ ("created_at", "TEXT NOT NULL")
      ∷ [])
    ∷ []

unfoldable pub delegations_granted_schema : List Statement
delegations_granted_schema =
    create_table "delegations" (
      ("delegation_id", "TEXT PRIMARY KEY")
      ∷ ("peer_verify_key", "TEXT NOT NULL")
      ∷ ("peer_hub_name", "TEXT")
      ∷ ("plugin", "TEXT NOT NULL")
      ∷ ("tool", "TEXT NOT NULL")
      ∷ ("scope", "TEXT NOT NULL")
      ∷ ("expires_at", "TEXT NOT NULL")
      ∷ ("revoked", "INTEGER NOT NULL DEFAULT 0")
      ∷ ("created_at", "TEXT NOT NULL")
      ∷ ("signature", "BLOB NOT NULL")
      ∷ [])
    ∷ create_index "idx_delegations_peer" "delegations" "peer_verify_key"
    ∷ create_index "idx_delegations_expires" "delegations" "expires_at"
    ∷ []

unfoldable pub peer_delegations_received_schema : List Statement
peer_delegations_received_schema =
    create_table "peer_delegations" (
      ("delegation_id", "TEXT PRIMARY KEY")
      ∷ ("peer_verify_key", "TEXT NOT NULL")
      ∷ ("peer_hub_name", "TEXT NOT NULL")
      ∷ ("peer_hub_url", "TEXT NOT NULL")
      ∷ ("plugin", "TEXT NOT NULL")
      ∷ ("tool", "TEXT NOT NULL")
      ∷ ("scope", "TEXT NOT NULL")
      ∷ ("input_schema", "TEXT")
      ∷ ("expires_at", "TEXT NOT NULL")
      ∷ ("revoked", "INTEGER NOT NULL DEFAULT 0")
      ∷ ("created_at", "TEXT NOT NULL")
      ∷ ("signature", "BLOB NOT NULL")
      ∷ [])
    ∷ []

unfoldable pub federation_nonces_schema : List Statement
federation_nonces_schema =
    create_table "federation_nonces"
      (("request_id", "TEXT PRIMARY KEY") ∷ ("seen_at", "TEXT NOT NULL") ∷ [])
    ∷ create_index "idx_federation_nonces_seen_at" "federation_nonces" "seen_at"
    ∷ []

unfoldable pub federation_context_columns : List Statement
federation_context_columns =
    add_column "audit_log" ("delegated_by", "TEXT")
    ∷ add_column "audit_log" ("delegated_to", "TEXT")
    ∷ add_column "audit_log" ("decision_federated", "TEXT")
    ∷ add_column "grants" ("delegated_by", "TEXT")
    ∷ []

unfoldable pub plugin_error_columns : List Statement
plugin_error_columns =
    add_column "audit_log" ("error_class", "TEXT")
    ∷ add_column "audit_log" ("error_code", "TEXT")
    ∷ []

unfoldable pub actor_columns : List Statement
actor_columns =
    add_column "audit_log" ("actor_type", "TEXT")
    ∷ add_column "audit_log" ("actor_id", "TEXT")
    ∷ add_column "audit_log" ("request_id", "TEXT")
    ∷ []

unfoldable pub plugin_oauth_schema : List Statement
plugin_oauth_schema =
    create_table "plugin_oauth_credentials" (
      ("plugin", "TEXT PRIMARY KEY")
      ∷ ("client_id_enc", "BLOB NOT NULL")
      ∷ ("client_id_iv", "BLOB NOT NULL")
      ∷ ("client_id_tag", "BLOB NOT NULL")
      ∷ ("client_secret_enc", "BLOB")
      ∷ ("client_secret_iv", "BLOB")
      ∷ ("client_secret_tag", "BLOB")
      ∷ ("created_at", "TEXT NOT NULL")
      ∷ ("updated_at", "TEXT NOT NULL")
      ∷ [])
    ∷ []

abbrev version : ℕ → List Statement → Migration
version n up = record { version = n; up = up }

unfoldable pub migrations : List Migration
migrations =
    version 1 (token_vault_schema ++ (grant_store_schema ++ audit_log_schema))
    ∷ version 2 federation_keys_schema
    ∷ version 3 (delegations_granted_schema ++ peer_delegations_received_schema)
    ∷ version 4 federation_context_columns
    ∷ version 5 federation_nonces_schema
    ∷ version 6 plugin_error_columns
    ∷ version 7 actor_columns
    ∷ version 8 plugin_oauth_schema
    ∷ []
