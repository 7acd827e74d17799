-- ===== src/Grants/Validity.antt =====
-- grant-store.ts: lookup, revocation and lazy expiry of one grant.
use mathlib.Core.Option
use pdatahub.Grants.{
  Grant, GrantRow, GrantTable, row_to_grant, has_grant, get_by_id, mark_revoked, revoke, is_valid,
  find_active, MatchKey,
}
use pdatahub.Prelude.{
  [], none, some, true, false, String, ◌≡◌, ℕ, if◌then◌else◌, ◌↔◌, ◌≢◌, str_eq, arith, ◌<◌, ◌∷◌,
  eq_iff, inl, inr, eq_refl, Memᴰ, cases_member,
}
use pdatahub.Grants.Find.{find_active-IsAnswer}

abbrev pub revoked_grant : Grant → Grant
revoked_grant g = record g { revoked = true }

-- Revoking one grant sets its flag, and changes no other grant.
pub get_by_id-revoke :
    (id j : String) (rows : GrantTable)
    → get_by_id j (revoke id rows).0
      ≡ (if str_eq id j then Option.map revoked_grant (get_by_id j rows) else get_by_id j rows)
unfolding get_by_id revoke mark_revoked row_to_grant
get_by_id-revoke id j [] = ground arith
get_by_id-revoke id j (r ∷ rows) =
    ground
      (arith, eq_iff r.grant_id id, eq_iff r.grant_id j, eq_iff id j, get_by_id-revoke id j rows)

-- `revoke` reports whether there is such a grant.
pub revoke-found :
    (id : String) (rows : GrantTable) → ((revoke id rows).1 ≡ false) ↔ (get_by_id id rows ≡ none)
unfolding revoke has_grant get_by_id
revoke-found id [] = ground arith
revoke-found id (r ∷ rows) = ground (arith, (revoke-found id rows).0, (revoke-found id rows).1)

-- A grant is valid exactly if it is in the table, not revoked, and not expired.
pub is_valid_iff :
    (id : String) (now : ℕ) (rows : GrantTable)
    → ((is_valid id now rows).1 ≡ true)
      ↔ ((g : Grant) × (get_by_id id rows ≡ some g) × (g.revoked ≡ false) × (now < g.expires_at))
unfolding is_valid
is_valid_iff id now rows = (λ h. ground arith, λ h. ground (arith, h.1, h.2, h.3))

-- A grant that was once found invalid is invalid ever after, whatever the clock says later.
pub is_valid_never_again :
    (id : String) (now t : ℕ) (rows : GrantTable)
    → (is_valid id now rows).1 ≡ false
    → (is_valid id t (is_valid id now rows).0).1 ≡ false
unfolding is_valid
is_valid_never_again id now t rows h = ground (arith, get_by_id-revoke id id rows, eq_refl id)

-- The check of one grant changes no other.
pub get_by_id-is_valid :
    (id j : String) (now : ℕ) (rows : GrantTable)
    → id ≢ j
    → get_by_id j (is_valid id now rows).0 ≡ get_by_id j rows
unfolding is_valid
get_by_id-is_valid id j now rows ne = ground (arith, get_by_id-revoke id j rows, eq_iff id j)

mark_revoked-live :
    (id : String) (rows : GrantTable) (r : GrantRow)
    → Memᴰ r (mark_revoked id rows)
    → r.revoked ≡ 0
    → r.grant_id ≢ id
unfolding mark_revoked
mark_revoked-live id [] r m live = elim m [ ]
mark_revoked-live id (q ∷ rows) r m live = elim (cases_member m) [
  | inl e ↦ ground (arith, eq_iff q.grant_id id)
  | inr later ↦ mark_revoked-live id rows r later live
]

-- A revoked grant answers no call.
pub find_active-revoke :
    (q : MatchKey) (id : String) (now : ℕ) (rows : GrantTable) (g : Grant)
    → find_active q now (revoke id rows).0 ≡ some g
    → g.grant_id ≢ id
unfolding revoke row_to_grant
find_active-revoke q id now rows g h =
    let a = find_active-IsAnswer q now (mark_revoked id rows) g h in
    rw a.same (mark_revoked-live id rows a.row a.listed a.fits.live)
