-- ===== src/Migrations/Stores.antt =====
-- The statements that the constructors of `AuditLog` and `GrantStore` run (packages/hub-core/src/audit-log.ts,
-- packages/hub-core/src/grant-store.ts), beside those of the migrations.
use pdatahub.Prelude.{[], List, ◌∷◌}
use pdatahub.Migrations.{Statement, create_table, create_index}

unfoldable pub audit_log_constructor : List Statement
audit_log_constructor =
    create_table "audit_log" (
      ("id", "TEXT PRIMARY KEY")
      ∷ ("timestamp", "TEXT NOT NULL")
      ∷ ("agent_id", "TEXT NOT NULL")
      ∷ ("user_id", "TEXT NOT NULL")
      ∷ ("tool_name", "TEXT NOT NULL")
      ∷ ("plugin", "TEXT NOT NULL")
      ∷ ("scope", "TEXT NOT NULL")
      ∷ ("justification", "TEXT")
      ∷ ("decision", "TEXT NOT NULL")
      ∷ ("grant_id", "TEXT")
      ∷ ("duration_ms", "INTEGER NOT NULL")
      ∷ ("error", "TEXT")
      ∷ ("delegated_by", "TEXT")
      ∷ ("delegated_to", "TEXT")
      ∷ ("decision_federated", "TEXT")
      ∷ ("error_class", "TEXT")
      ∷ ("error_code", "TEXT")
      ∷ ("actor_type", "TEXT")
      ∷ ("actor_id", "TEXT")
      ∷ ("request_id", "TEXT")
      ∷ [])
    ∷ create_index "idx_audit_timestamp" "audit_log" "timestamp DESC"
    ∷ create_index "idx_audit_agent" "audit_log" "agent_id"
    ∷ create_index "idx_audit_user" "audit_log" "user_id"
    ∷ create_index "idx_audit_tool" "audit_log" "tool_name"
    ∷ create_index "idx_audit_decision" "audit_log" "decision"
    ∷ []

unfoldable pub grant_store_constructor : List Statement
grant_store_constructor =
    create_table "grants" (
      ("grant_id", "TEXT PRIMARY KEY")
      ∷ ("tool_name", "TEXT NOT NULL")
      ∷ ("plugin", "TEXT NOT NULL")
      ∷ ("scope", "TEXT NOT NULL")
      ∷ ("agent_id", "TEXT NOT NULL")
      ∷ ("user_id", "TEXT NOT NULL")
      ∷ ("created_at", "TEXT NOT NULL")
      ∷ ("expires_at", "TEXT NOT NULL")
      ∷ ("revoked", "INTEGER NOT NULL DEFAULT 0")
      ∷ ("delegated_by", "TEXT")
      ∷ [])
    ∷ create_index "idx_grants_agent" "grants" "agent_id"
    ∷ create_index "idx_grants_tool" "grants" "tool_name"
    ∷ create_index "idx_grants_expires" "grants" "expires_at"
    ∷ []
