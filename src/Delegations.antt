-- ===== src/Delegations.antt =====
-- packages/hub-core/src/federation/delegation.ts: the delegations that this hub has granted to peers and
-- those that it has received. Each table is the list of its rows; a time is the number of
-- milliseconds of its ISO 8601 text, save that the expiry of a received row is the text itself, which a peer chooses. A
-- signature is its bytes.
pub mod Canonical
pub mod Blob
pub mod Tables
pub mod Lookup
pub mod Latest
mod Tests
use mathlib.Core.Option
use pdatahub.Delegations.Canonical.{str_le}
use pdatahub.Prelude.{
  keep, first, sort_desc, any, leb, str_append, [], none, some, true, ok, err, List, String, Option,
  ℕ, Bool, Result, str_eq, if◌then◌else◌, ◌==◌, ◌++◌, map, ◌&&◌, ◌∷◌,
}

abbrev pub Bytes : Type 0
Bytes = List ℕ

pub record DelegationGrantedRow : Type 0 where
  pub delegation_id : String
  pub peer_verify_key : String
  pub peer_hub_name : Option String
  pub plugin : String
  pub tool : String
  pub scope : String
  pub expires_at : ℕ
  pub revoked : ℕ
  pub created_at : ℕ
  pub signature : Bytes

pub record DelegationReceivedRow : Type 0 where
  pub delegation_id : String
  pub peer_verify_key : String
  pub peer_hub_name : String
  pub peer_hub_url : String
  pub plugin : String
  pub tool : String
  pub scope : String
  pub input_schema : Option String
  pub expires_at : String
  pub revoked : ℕ
  pub created_at : ℕ
  pub signature : Bytes

-- The date as `Date.parse` gives it: none for a text that is missing, empty or no date, or of a time before 1970.
unfoldable pub is_expired : Option ℕ → ℕ → Bool
is_expired none now = true
is_expired (some ts) now = leb ts now

-- The column `revoked` of a row.
unfoldable pub is_revoked : ℕ → Bool
is_revoked revoked = revoked == 1

pub record CreateGrantedInput : Type 0 where
  pub delegation_id : Option String
  pub peer_verify_key : String
  pub peer_hub_name : Option String
  pub plugin : String
  pub tool : String
  pub scope : String
  pub expires_at : ℕ
  pub signature : Bytes

pub record CreateReceivedInput : Type 0 where
  pub delegation_id : String
  pub peer_verify_key : String
  pub peer_hub_name : String
  pub peer_hub_url : String
  pub plugin : String
  pub tool : String
  pub scope : String
  pub input_schema : Option String
  pub expires_at : String
  pub signature : Bytes

unfoldable pub granted_row : CreateGrantedInput → String → ℕ → DelegationGrantedRow
granted_row input id now = record {
  delegation_id = id;
  peer_verify_key = input.peer_verify_key;
  peer_hub_name = input.peer_hub_name;
  plugin = input.plugin;
  tool = input.tool;
  scope = input.scope;
  expires_at = input.expires_at;
  revoked = 0;
  created_at = now;
  signature = input.signature;
}

unfoldable pub received_row : CreateReceivedInput → ℕ → DelegationReceivedRow
received_row input now = record {
  delegation_id = input.delegation_id;
  peer_verify_key = input.peer_verify_key;
  peer_hub_name = input.peer_hub_name;
  peer_hub_url = input.peer_hub_url;
  plugin = input.plugin;
  tool = input.tool;
  scope = input.scope;
  input_schema = input.input_schema;
  expires_at = input.expires_at;
  revoked = 0;
  created_at = now;
  signature = input.signature;
}

abbrev pub GrantedTable : Type 0
GrantedTable = List DelegationGrantedRow

abbrev pub ReceivedTable : Type 0
ReceivedTable = List DelegationReceivedRow

unfoldable pub has_granted : String → GrantedTable → Bool
has_granted id = any (λ r. str_eq r.delegation_id id)

unfoldable pub has_received : String → ReceivedTable → Bool
has_received id = any (λ r. str_eq r.delegation_id id)

-- `createGranted`, with the UUID that is drawn if the input has no id; an INSERT of a primary key that
-- is taken throws.
unfoldable pub create_granted :
    CreateGrantedInput → String → ℕ → GrantedTable → Result (String × GrantedTable)
create_granted input drawn now rows =
    let id = Option.get_or input.delegation_id drawn in
    if has_granted id rows
    then err "UNIQUE constraint failed: delegations.delegation_id"
    else ok (id, rows ++ granted_row input id now ∷ [])

unfoldable pub get_granted : String → GrantedTable → Option DelegationGrantedRow
get_granted id rows = first (keep (λ r. str_eq r.delegation_id id) rows)

abbrev pub granted_at : DelegationGrantedRow → ℕ
granted_at r = r.created_at

unfoldable pub list_granted : GrantedTable → GrantedTable
list_granted = sort_desc granted_at

-- `revokeGranted`: the new table, and whether a row was changed.
unfoldable pub revoke_granted : String → GrantedTable → GrantedTable × Bool
revoke_granted id rows = (
  map (λ r. if str_eq r.delegation_id id then record r { revoked = 1 } else r) rows,
  has_granted id rows,
)

-- `createReceived`: `INSERT OR IGNORE`.
unfoldable pub create_received : CreateReceivedInput → ℕ → ReceivedTable → ReceivedTable
create_received input now rows =
    if has_received input.delegation_id rows then rows else rows ++ received_row input now ∷ []

unfoldable pub get_received : String → ReceivedTable → Option DelegationReceivedRow
get_received id rows = first (keep (λ r. str_eq r.delegation_id id) rows)

-- `peer_hub_name = ? AND tool = ? AND revoked = 0`
unfoldable pub is_match : String → String → DelegationReceivedRow → Bool
is_match hub tool r = str_eq r.peer_hub_name hub && str_eq r.tool tool && r.revoked == 0

-- `ORDER BY expires_at DESC`: the column is a text, and has the order of texts.
unfoldable pub insert_latest : DelegationReceivedRow → ReceivedTable → ReceivedTable
insert_latest r [] = r ∷ []
insert_latest r (q ∷ rows) =
    let rest = insert_latest r rows in
    if str_le q.expires_at r.expires_at then r ∷ q ∷ rows else q ∷ rest

unfoldable pub sort_latest : ReceivedTable → ReceivedTable
unfolding insert_latest
sort_latest [] = []
sort_latest (r ∷ rows) = insert_latest r (sort_latest rows)

abbrev pub received_at : DelegationReceivedRow → ℕ
received_at r = r.created_at

unfoldable pub find_received_match : String → String → ReceivedTable → ReceivedTable
find_received_match hub tool rows = sort_latest (keep (is_match hub tool) rows)

unfoldable pub list_received : ReceivedTable → ReceivedTable
list_received = sort_desc received_at

unfoldable pub revoke_received : String → ReceivedTable → ReceivedTable × Bool
revoke_received id rows = (
  map (λ r. if str_eq r.delegation_id id then record r { revoked = 1 } else r) rows,
  has_received id rows,
)
