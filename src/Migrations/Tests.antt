-- ===== src/Migrations/Tests.antt =====
-- Runs of the migrations, and the witnesses of their theorems.
use pdatahub.Prelude.{[], none, refl, ok, err, lookup, List, ◌++◌, insert, ◌∷◌, ◌≡◌, arith}
use pdatahub.Migrations.{
  Migration, Database, exec, exec_statement, exec_create_table, exec_create_index, exec_add_column,
  has_column, is_gap, apply_from, run_migrations,
}
use pdatahub.Migrations.Tables.{
  migrations, audit_log_schema, grant_store_schema, token_vault_schema, federation_keys_schema,
  delegations_granted_schema, peer_delegations_received_schema, federation_nonces_schema,
  federation_context_columns, plugin_error_columns, actor_columns, plugin_oauth_schema,
}
use pdatahub.Migrations.Stores.{audit_log_constructor, grant_store_constructor}
use pdatahub.Migrations.Resume.{run_migrations-resume}

abbrev fresh : Database
fresh = record { schema = record { tables = []; indexes = [] }; user_version = 0 }

-- A new database gets version 8.
fresh_run : (run_migrations migrations fresh).1 ≡ ok 8
unfolding run_migrations apply_from is_gap exec exec_statement exec_create_table exec_create_index
    exec_add_column has_column migrations audit_log_schema grant_store_schema token_vault_schema
    federation_keys_schema delegations_granted_schema peer_delegations_received_schema
    federation_nonces_schema federation_context_columns plugin_error_columns actor_columns
    plugin_oauth_schema audit_log_constructor grant_store_constructor lookup insert
fresh_run = refl

-- The constructors of the stores run after the migrations without an error.
constructed_after :
    (exec
      (audit_log_constructor ++ grant_store_constructor)
      (run_migrations migrations fresh).0.schema).error
    ≡ none
unfolding run_migrations apply_from is_gap exec exec_statement exec_create_table exec_create_index
    exec_add_column has_column migrations audit_log_schema grant_store_schema token_vault_schema
    federation_keys_schema delegations_granted_schema peer_delegations_received_schema
    federation_nonces_schema federation_context_columns plugin_error_columns actor_columns
    plugin_oauth_schema audit_log_constructor grant_store_constructor lookup insert
constructed_after = refl

-- Constructed before the migrations, the stores make the fourth migration fail.
constructed_first :
    (run_migrations migrations (record {
      schema = (exec (audit_log_constructor ++ grant_store_constructor) fresh.schema).schema;
      user_version = 0;
    })).1
    ≡ err "duplicate column name: delegated_by"
unfolding run_migrations apply_from is_gap exec exec_statement exec_create_table exec_create_index
    exec_add_column has_column migrations audit_log_schema grant_store_schema token_vault_schema
    federation_keys_schema delegations_granted_schema peer_delegations_received_schema
    federation_nonces_schema federation_context_columns plugin_error_columns actor_columns
    plugin_oauth_schema audit_log_constructor grant_store_constructor lookup insert
constructed_first = refl

abbrev version_3 : List Migration
version_3 =
    record { version = 1; up = token_vault_schema ++ (grant_store_schema ++ audit_log_schema) }
    ∷ record { version = 2; up = federation_keys_schema }
    ∷ record { version = 3; up = delegations_granted_schema ++ peer_delegations_received_schema }
    ∷ []

abbrev above_3 : List Migration
above_3 =
    record { version = 4; up = federation_context_columns }
    ∷ record { version = 5; up = federation_nonces_schema }
    ∷ []

-- A run stopped behind the statements of the fourth migration and before its version is written cannot go on.
interrupted :
    (run_migrations migrations (record (run_migrations version_3 fresh).0 {
      schema = (exec federation_context_columns (run_migrations version_3 fresh).0.schema).schema;
    })).1
    ≡ err "duplicate column name: delegated_by"
unfolding run_migrations apply_from is_gap exec exec_statement exec_create_table exec_create_index
    exec_add_column has_column migrations audit_log_schema grant_store_schema token_vault_schema
    federation_keys_schema delegations_granted_schema peer_delegations_received_schema
    federation_nonces_schema federation_context_columns plugin_error_columns actor_columns
    plugin_oauth_schema audit_log_constructor grant_store_constructor lookup insert
interrupted = refl

abbrev database_3 : Database
database_3 = (run_migrations version_3 fresh).0

version_3_run : run_migrations version_3 fresh ≡ ((run_migrations version_3 fresh).0, ok 3)
unfolding run_migrations apply_from is_gap exec exec_statement exec_create_table exec_create_index
    exec_add_column has_column migrations audit_log_schema grant_store_schema token_vault_schema
    federation_keys_schema delegations_granted_schema peer_delegations_received_schema
    federation_nonces_schema federation_context_columns plugin_error_columns actor_columns
    plugin_oauth_schema audit_log_constructor grant_store_constructor lookup insert
version_3_run = refl

run_migrations-resume_example :
    run_migrations (version_3 ++ above_3) (run_migrations version_3 fresh).0
    ≡ run_migrations (version_3 ++ above_3) fresh
run_migrations-resume_example =
    run_migrations-resume version_3 above_3 fresh
      (omega arith, (omega arith, (omega arith, (omega arith, (omega arith, tt))))) version_3_run
