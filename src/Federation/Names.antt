-- ===== src/Federation/Names.antt =====
-- packages/hub-core/src/server.ts: the names of federated tools, `federated__<hub>__<tool>`.
pub mod RoundTrip
mod Tests
use Prim.Native.Char.{code}
use pdatahub.Delegations.{DelegationReceivedRow, ReceivedTable, list_received}
use pdatahub.Delegations.Blob.{drop_chars}
use pdatahub.Delegations.Canonical.{str_le}
use pdatahub.Prelude.{
  str_append, starts_with, ltb, keep, [], none, some, String, Option, List, ◌∷◌, if◌then◌else◌, ℕ,
  ◌==◌, not, str_eq, ◌&&◌, ◌||◌,
}

-- The text before the first `__` and the text behind it.
unfoldable pub split_at_sep : String → Option (String × String)
split_at_sep String.[] = none
split_at_sep (String.◌∷◌ c String.[]) = none
split_at_sep (String.◌∷◌ c (String.◌∷◌ d s)) =
    let rest = split_at_sep (String.◌∷◌ d s) in
    if code c == b'_' && code d == b'_'
    then some ("", s)
    else elim rest [ none ↦ none | some (before, after) ↦ some (String.◌∷◌ c before, after) ]

abbrev pub name_prefix : String
name_prefix = "federated__"

unfoldable pub nonempty_pair : Option (String × String) → Option (String × String)
nonempty_pair none = none
nonempty_pair (some (hub, tool)) =
    if str_eq hub "" || str_eq tool "" then none else some (hub, tool)

-- `parseFederatedToolName`: the hub and the tool.
unfoldable pub parse_federated_tool_name : String → Option (String × String)
parse_federated_tool_name name =
    if starts_with name name_prefix then nonempty_pair (split_at_sep (drop_chars 11 name)) else none

-- The name that `listFederatedToolDescriptors` gives to a tool of a hub.
unfoldable pub federated_name : String → String → String
federated_name hub tool = str_append name_prefix (str_append hub (str_append "__" tool))

-- `byName`: the rows with their names, in the order of first sight.
abbrev pub Named : Type 0
Named = List (String × DelegationReceivedRow)

-- A row takes the place of one with its name whose expiry is an earlier text.
unfoldable pub put_row : DelegationReceivedRow → Named → Named
unfolding federated_name
put_row r [] = (federated_name r.peer_hub_name r.tool, r) ∷ []
put_row r ((name, q) ∷ named) =
    let rest = put_row r named in
    if str_eq name (federated_name r.peer_hub_name r.tool)
    then (if str_le r.expires_at q.expires_at then (name, q) ∷ named else (name, r) ∷ named)
    else (name, q) ∷ rest

unfoldable pub by_name : List DelegationReceivedRow → Named → Named
unfolding put_row
by_name [] named = named
by_name (r ∷ rows) named = by_name rows (put_row r named)

-- `listFederatedToolDescriptors`, where a descriptor is its name and the row that it describes. `now` is
-- the ISO 8601 text of the time, with which the texts of the rows are compared.
unfoldable pub list_federated_tools : Option ReceivedTable → String → Named
unfolding by_name
list_federated_tools none now = []
list_federated_tools (some rows) now =
    by_name (keep (λ r. r.revoked == 0 && not (str_le r.expires_at now)) (list_received rows)) []
