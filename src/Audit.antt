-- ===== src/Audit.antt =====
-- packages/hub-core/src/audit-log.ts: the append-only log of requests and decisions. The table
-- `audit_log` is the list of its rows; a time is the number of milliseconds whose ISO 8601 text the
-- column holds. An absent field is null.
pub mod Query
mod Tests
use mathlib.Core.Option
use pdatahub.Prelude.{
  ℕ, String, Bool, true, false, Option, none, some, List, [], ◌∷◌, ◌++◌, ◌&&◌, not, Result, ok, err,
  keep, any, length, map, ltb, str_eq, str_append, sort_desc, is_null_or_eq, if◌then◌else◌, suc,
  ◌-◌, zero,
}

pub data AuditDecision : Type 0 where
  approved : AuditDecision
  denied : AuditDecision
  auto_allowed : AuditDecision
  expired : AuditDecision
  revoked : AuditDecision
  error : AuditDecision
  vault_access : AuditDecision
  token_rotation : AuditDecision

-- The text of a decision in its column.
unfoldable pub decision_text : AuditDecision → String
decision_text approved = "approved"
decision_text denied = "denied"
decision_text auto_allowed = "auto_allowed"
decision_text expired = "expired"
decision_text revoked = "revoked"
decision_text error = "error"
decision_text vault_access = "vault_access"
decision_text token_rotation = "token_rotation"

pub record AuditAppendInput : Type 0 where
  pub agent_id : String
  pub user_id : String
  pub tool_name : String
  pub plugin : String
  pub scope : String
  pub justification : Option String
  pub decision : AuditDecision
  pub grant_id : Option String
  pub duration_ms : ℕ
  pub error : Option String
  pub delegated_by : Option String
  pub delegated_to : Option String
  pub decision_federated : Option String
  pub error_class : Option String
  pub error_code : Option String
  pub actor_type : Option String
  pub actor_id : Option String
  pub request_id : Option String

-- An entry, and a row of the table: the input with its id and its time.
pub record AuditEntry : Type 0 where
  pub id : String
  pub timestamp : ℕ
  pub input : AuditAppendInput

abbrev pub AuditTable : Type 0
AuditTable = List AuditEntry

unfoldable pub has_entry : String → AuditTable → Bool
has_entry id = any (λ r. str_eq r.id id)

-- `AuditLog.append`, with the UUID drawn; an INSERT of a primary key that is taken throws.
unfoldable pub append :
    AuditAppendInput → String → ℕ → AuditTable → Result (AuditEntry × AuditTable)
append input id now rows =
    if has_entry id rows
    then err "UNIQUE constraint failed: audit_log.id"
    else let entry : AuditEntry = record { id = id; timestamp = now; input = input } in
      ok (entry, rows ++ entry ∷ [])

-- A falsy error of a row is left out of its entry.
unfoldable pub row_to_entry : AuditEntry → AuditEntry
row_to_entry row =
    if is_null_or_eq row.input.error (some "")
    then record row { input = record row.input { error = none } }
    else row

pub record AuditQueryOptions : Type 0 where
  pub agent_id : Option String
  pub user_id : Option String
  pub tool_name : Option String
  pub decision : Option AuditDecision
  pub limit : Option ℕ
  pub since : Option ℕ

-- A condition that is pushed only for a text that is given and not empty.
unfoldable pub filter_text : Option String → String → Bool
filter_text none s = true
filter_text (some w) s = if str_eq w "" then true else str_eq s w

unfoldable pub filter_decision : Option AuditDecision → AuditDecision → Bool
unfolding decision_text
filter_decision none d = true
filter_decision (some w) d = str_eq (decision_text d) (decision_text w)

unfoldable pub filter_since : Option ℕ → ℕ → Bool
filter_since none t = true
filter_since (some w) t = ltb w t

-- The WHERE clause of `query`.
unfoldable pub selects : AuditQueryOptions → AuditEntry → Bool
selects opts r =
    filter_text opts.agent_id r.input.agent_id
    && filter_text opts.user_id r.input.user_id
    && filter_text opts.tool_name r.input.tool_name
    && filter_decision opts.decision r.input.decision
    && filter_since opts.since r.timestamp

-- `LIMIT ?`
unfoldable pub limit_to {ℓ} : {A : Type ℓ} → ℕ → List A → List A
limit_to n [] = []
limit_to zero (x ∷ xs) = []
limit_to (suc n) (x ∷ xs) = x ∷ limit_to n xs

abbrev pub stamp : AuditEntry → ℕ
stamp r = r.timestamp

abbrev pub default_limit : ℕ
default_limit = 100

-- `AuditLog.query`
unfoldable pub query : AuditQueryOptions → AuditTable → List AuditEntry
query opts rows =
    map row_to_entry (
      limit_to (Option.get_or opts.limit default_limit)
        (sort_desc stamp (keep (selects opts) rows)))

-- `AuditLog.getByErrorCode`
unfoldable pub get_by_error_code : String → Option ℕ → AuditTable → List AuditEntry
get_by_error_code wanted limit rows = map row_to_entry (
    limit_to (Option.get_or limit default_limit)
      (sort_desc stamp (keep (λ r. is_null_or_eq r.input.error_code (some wanted)) rows)))

-- `AuditLog.countOlderThan`
unfoldable pub count_older_than : ℕ → AuditTable → ℕ
count_older_than cutoff rows = length (keep (λ r. ltb r.timestamp cutoff) rows)

-- `AuditLog.purgeOlderThan`, with the number of rows that it deletes.
unfoldable pub purge_older_than : ℕ → AuditTable → AuditTable × ℕ
purge_older_than cutoff rows =
    let left = keep (λ r. not (ltb r.timestamp cutoff)) rows in (left, length rows - length left)

pub data VaultAccessResult : Type 0 where
  success : VaultAccessResult
  refused : VaultAccessResult
  not_found : VaultAccessResult
  failed : VaultAccessResult

pub record VaultAccessInput : Type 0 where
  pub plugin : String
  pub actor_type : String
  pub actor_id : String
  pub tool_name : Option String
  pub request_id : Option String
  pub result : VaultAccessResult
  pub error_message : Option String

-- The value of the column `error`; its own message takes precedence.
unfoldable pub vault_error : VaultAccessResult → String → Option String → Option String
vault_error success plugin message = none
vault_error refused plugin message = some (Option.get_or message "denied_by_policy")
vault_error not_found plugin message =
    some (Option.get_or message (str_append "no_token_for_plugin:" plugin))
vault_error failed plugin message = some (Option.get_or message "decrypt_failed")

-- The row that `recordVaultAccessSync` appends; an empty message is left out.
unfoldable pub vault_row : VaultAccessInput → AuditAppendInput
vault_row input =
    let value = vault_error input.result input.plugin input.error_message in
    record {
      agent_id = input.actor_id;
      user_id = "local-user";
      tool_name = Option.get_or input.tool_name "";
      plugin = input.plugin;
      scope = "vault:decrypt";
      justification = none;
      decision = vault_access;
      grant_id = none;
      duration_ms = 0;
      error = if is_null_or_eq value (some "") then none else value;
      delegated_by = none;
      delegated_to = none;
      decision_federated = none;
      error_class = none;
      error_code = none;
      actor_type = some input.actor_type;
      actor_id = some input.actor_id;
      request_id = input.request_id;
    }

-- `AuditLog.recordTokenRotation`
unfoldable pub rotation_row : String → Bool → String → AuditAppendInput
rotation_row plugin rotated scope = record {
  agent_id = "system:token-refresh";
  user_id = "local-user";
  tool_name = "refreshAccessToken";
  plugin = plugin;
  scope = scope;
  justification = none;
  decision = token_rotation;
  grant_id = none;
  duration_ms = 0;
  error = if rotated then none else some "no_rotation";
  delegated_by = none;
  delegated_to = none;
  decision_federated = none;
  error_class = none;
  error_code = none;
  actor_type = none;
  actor_id = none;
  request_id = none;
}

-- `AuditLog.stats`, of all users for an empty or absent id.
unfoldable pub stats : Option String → AuditTable → AuditDecision → ℕ
stats user_id rows d = length (
    keep (λ r. filter_text user_id r.input.user_id && filter_decision (some d) r.input.decision)
      rows)

-- `recordVaultAccessSync`, and the delayed part of `recordVaultAccess`: the table, the entries that go to the
-- broadcaster, if there is one, and the error of `append`, which the second only logs.
unfoldable pub record_vault_access :
    Bool → VaultAccessInput → String → ℕ → AuditTable → AuditTable × List AuditEntry × Option String
record_vault_access has_broadcaster input id now rows =
    elim (append (vault_row input) id now rows) [
      | err e ↦ (rows, [], some e)
      | ok (entry, left) ↦ (left, if has_broadcaster then entry ∷ [] else [], none)
    ]
