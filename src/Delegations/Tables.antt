-- ===== src/Delegations/Tables.antt =====
-- delegation.ts, `DelegationStore`: which rows the tables hold and give.
use mathlib.Core.Option
use pdatahub.Delegations.{
  DelegationGrantedRow, DelegationReceivedRow, CreateReceivedInput, received_row, GrantedTable,
  ReceivedTable, has_received, get_granted, get_received, revoke_granted, create_received, is_match,
  find_received_match,
}
use pdatahub.Delegations.Latest.{
  IsLatestFirst, Memᴰ-sort_latest, sort_latest-Memᴰ, sort_latest-IsLatestFirst,
}
use pdatahub.Prelude.{
  ◌≡◌, ◌↔◌, arith, Memᴰ, keep, [], none, some, true, false, refl, String, ℕ, eq_iff, Memᴰ-keep,
  ◌++◌, ◌∷◌, if◌then◌else◌, str_eq, eq_refl, keep-Memᴰ,
}

-- A row that serves a call of the tool on the hub.
pub record IsUsable (hub tool : String) (r : DelegationReceivedRow) : Type 0 where
  pub from : r.peer_hub_name ≡ hub
  pub for : r.tool ≡ tool
  pub live : r.revoked ≡ 0

is_match_iff :
    (hub tool : String) (r : DelegationReceivedRow)
    → (is_match hub tool r ≡ true) ↔ IsUsable hub tool r
unfolding is_match
is_match_iff hub tool r = (
  λ h. record {
    from = ground (arith, eq_iff r.peer_hub_name hub);
    for = ground (arith, eq_iff r.tool tool);
    live = ground arith;
  },
  λ u. ground (arith, (eq_iff r.peer_hub_name hub).1 u.from, (eq_iff r.tool tool).1 u.for, u.live),
)

-- `findReceivedMatch` gives exactly the rows of the table for the hub and the tool that are not
-- revoked, expired ones included, those with the last text of their expiry first.
pub find_received_match_lem :
    (hub tool : String) (rows : ReceivedTable)
    → ((r : DelegationReceivedRow)
        → Memᴰ r (find_received_match hub tool rows) ↔ (Memᴰ r rows × IsUsable hub tool r))
      × IsLatestFirst (find_received_match hub tool rows)
unfolding find_received_match
find_received_match_lem hub tool rows = (
  λ r. (
    λ m.
        let (listed, fits) =
          Memᴰ-keep (is_match hub tool) r rows
            (Memᴰ-sort_latest r (keep (is_match hub tool) rows) m) in
        (listed, (is_match_iff hub tool r).0 fits),
    λ h.
        sort_latest-Memᴰ r (keep (is_match hub tool) rows)
          (keep-Memᴰ (is_match hub tool) r rows h.0 ((is_match_iff hub tool r).1 h.1)),
  ),
  sort_latest-IsLatestFirst (keep (is_match hub tool) rows),
)

has_received-append :
    (id : String) (rows : ReceivedTable) (r : DelegationReceivedRow)
    → has_received id (rows ++ r ∷ [])
      ≡ (if has_received id rows then true else str_eq r.delegation_id id)
unfolding has_received
has_received-append id [] r = ground arith
has_received-append id (q ∷ rows) r = ground (arith, has_received-append id rows r)

get_received-append :
    (id : String) (rows : ReceivedTable) (r : DelegationReceivedRow)
    → get_received id (rows ++ r ∷ []) ≡ (
        if has_received id rows
        then get_received id rows
        else if str_eq r.delegation_id id
        then some r
        else none)
unfolding get_received has_received
get_received-append id [] r = ground arith
get_received-append id (q ∷ rows) r = ground (arith, get_received-append id rows r)

get_received-has :
    (id : String) (rows : ReceivedTable)
    → has_received id rows ≡ false
    → get_received id rows ≡ none
unfolding get_received has_received
get_received-has id [] h = refl
get_received-has id (q ∷ rows) h = ground (arith, get_received-has id rows)

-- The first import of a delegation wins: after `createReceived` a lookup gives the row that was there
-- before, or else the new one; and a second import with the same id changes nothing.
pub create_received-first :
    (input again : CreateReceivedInput) (now later : ℕ) (rows : ReceivedTable)
    → again.delegation_id ≡ input.delegation_id
    → (get_received input.delegation_id (create_received input now rows) ≡ (
        if has_received input.delegation_id rows
        then get_received input.delegation_id rows
        else some (received_row input now)))
      × (create_received again later (create_received input now rows)
          ≡ create_received input now rows)
unfolding create_received received_row
create_received-first input again now later rows e =
    let id = input.delegation_id in
    let row = received_row input now in
    (
      ground (arith, get_received-append id rows row, eq_refl id),
      rw e (ground (arith, has_received-append id rows row, eq_refl id)),
    )

abbrev pub revoked_row : DelegationGrantedRow → DelegationGrantedRow
revoked_row r = record r { revoked = 1 }

-- Revoking a granted delegation sets its flag, and no other row changes.
pub get_granted-revoke :
    (id j : String) (rows : GrantedTable)
    → get_granted j (revoke_granted id rows).0
      ≡ (if str_eq id j then Option.map revoked_row (get_granted j rows) else get_granted j rows)
unfolding get_granted revoke_granted
get_granted-revoke id j [] = ground arith
get_granted-revoke id j (r ∷ rows) = ground (
  arith,
  eq_iff r.delegation_id id,
  eq_iff r.delegation_id j,
  eq_iff id j,
  get_granted-revoke id j rows,
)
