-- ===== src/Grants/Ensure/Outcome.antt =====
-- packages/hub-core/src/server.ts, `ensureGrant`: what each of its outcomes means.
use pdatahub.Grants.Find.{IsAnswer, IsMatch, find_active-IsAnswer, find_active-none_iff}
use pdatahub.Grants.{
  GrantRow, new_row, create, row_to_grant, has_grant, Grant, GrantTable, find_active,
}
use pdatahub.Prelude.{
  none, some, true, false, ok, ℕ, ◌+◌, ◌≡◌, ◌↔◌, ◌≢◌, ◌<◌, Memᴰ, [], inl, inr, refl, arith, ◌++◌,
  Bool-cases, Option-cases, ◌∷◌, Memᴰ-last,
}
use pdatahub.Grants.Ensure.{
  Approval, approved, denied, rejected, EnsureInput, EnsureContext, key_of, IsFor, grant_input,
  create_approved, after_approval, ensure_grant, tool_grant_ttl_ms,
}

answer-IsFor :
    (i : EnsureInput) (now : ℕ) (rows : GrantTable) (g : Grant)
    → IsAnswer (key_of i) now rows g
    → IsFor i g
unfolding row_to_grant
answer-IsFor i now rows g a = rw a.same (record {
  tool = a.fits.tool;
  plugin = a.fits.plugin;
  agent = a.fits.agent;
  delegated = a.fits.delegated;
  live = ground (arith, a.fits.live);
})

-- A creation that succeeds appends the row of the grant that it returns.
record IsCreated (i : EnsureInput) (ctx : EnsureContext) (rows : GrantTable) (g : Grant)
    : Type 0 where
  grown :
      (create_approved i ctx rows).rows
      ≡ rows ++ new_row (grant_input i ctx) ctx.new_id ctx.answered_at ∷ []
  same : g ≡ row_to_grant (new_row (grant_input i ctx) ctx.new_id ctx.answered_at)

create_approved-IsCreated :
    (i : EnsureInput) (ctx : EnsureContext) (rows : GrantTable) {g : Grant}
    → (create_approved i ctx rows).result ≡ ok g
    → IsCreated i ctx rows g
unfolding create_approved create
create_approved-IsCreated i ctx rows {g} h = elim (Bool-cases (has_grant ctx.new_id rows)) [
  | inl taken ↦ ground (arith, taken)
  | inr new ↦ record { grown = ground arith; same = ground arith }
]

created-IsFor :
    (i : EnsureInput) (ctx : EnsureContext) (rows : GrantTable) {g : Grant}
    → IsCreated i ctx rows g
    → IsFor i g
unfolding row_to_grant new_row grant_input
created-IsFor i ctx rows c =
    rw c.same (record { tool = refl; plugin = refl; agent = refl; delegated = refl; live = refl })

after_approval-approved :
    {a : Approval} (i : EnsureInput) (ctx : EnsureContext) (rows : GrantTable)
    → a ≡ approved
    → after_approval a i ctx rows ≡ create_approved i ctx rows
unfolding after_approval
after_approval-approved i ctx rows yes' = ground (arith, yes')

-- A grant that comes of an approval flow.
after_approval-ok :
    (a : Approval) (i : EnsureInput) (ctx : EnsureContext) (rows : GrantTable) {g : Grant}
    → (after_approval a i ctx rows).result ≡ ok g
    → (a ≡ approved) × IsCreated i ctx rows g
unfolding after_approval
after_approval-ok approved i ctx rows h = (refl, create_approved-IsCreated i ctx rows h)
after_approval-ok denied i ctx rows h = cc
after_approval-ok (rejected e) i ctx rows h = cc

asked-after_approval :
    (a : Approval) (i : EnsureInput) (ctx : EnsureContext) (rows : GrantTable)
    → (after_approval a i ctx rows).asked ≡ true
unfolding after_approval create_approved
asked-after_approval approved i ctx rows = ground arith
asked-after_approval denied i ctx rows = refl
asked-after_approval (rejected e) i ctx rows = refl

after_approval-refused :
    (a : Approval) (i : EnsureInput) (ctx : EnsureContext) (rows : GrantTable)
    → a ≢ approved
    → ((after_approval a i ctx rows).rows ≡ rows)
      × ((g : Grant) → (after_approval a i ctx rows).result ≢ ok g)
unfolding after_approval
after_approval-refused approved i ctx rows ne = absurd (ne refl)
after_approval-refused denied i ctx rows ne = (refl, λ g e. cc)
after_approval-refused (rejected e) i ctx rows ne = (refl, λ g h. cc)

module _ (i : EnsureInput) (ctx : EnsureContext) (rows : GrantTable) where
  ensure_found :
      {e : Grant}
      → find_active (key_of i) ctx.now rows ≡ some e
      → ensure_grant i ctx rows ≡ record { rows = rows; result = ok e; asked = false }
  unfolding ensure_grant
  ensure_found h = ground arith

  ensure_missing :
      find_active (key_of i) ctx.now rows ≡ none
      → ensure_grant i ctx rows ≡ after_approval ctx.approval i ctx (ctx.meanwhile rows)
  unfolding ensure_grant
  ensure_missing h = ground arith

-- Whatever happens, a call gets a grant that is made for its tool, plugin, agent and delegating
-- hub and not revoked, and if the phone was asked, it approved.
pub ensure_grant-IsFor :
    (i : EnsureInput) (ctx : EnsureContext) (rows : GrantTable) (g : Grant)
    → (ensure_grant i ctx rows).result ≡ ok g
    → IsFor i g × ((ensure_grant i ctx rows).asked ≡ true → ctx.approval ≡ approved)
ensure_grant-IsFor i ctx rows g h = elim (Option-cases (find_active (key_of i) ctx.now rows)) [
  | inl missing ↦
      let m = ensure_missing i ctx rows missing in
      let (yes', c) = after_approval-ok ctx.approval i ctx (ctx.meanwhile rows) (rw m at h) in
      (created-IsFor i ctx (ctx.meanwhile rows) c, λ a. yes')
  | inr (e, found) ↦
      let f = ensure_found i ctx rows found in
      (
        answer-IsFor i ctx.now rows g
            (find_active-IsAnswer (key_of i) ctx.now rows g (ground (arith, f))),
        λ a. ground (arith, f),
      )
]

-- The phone is asked exactly if no row of the table is a live grant for the call.
pub ensure_grant-asked_iff :
    (i : EnsureInput) (ctx : EnsureContext) (rows : GrantTable)
    → ((ensure_grant i ctx rows).asked ≡ true)
      ↔ ((r : GrantRow) → Memᴰ r rows → ¬ IsMatch (key_of i) ctx.now r)
ensure_grant-asked_iff i ctx rows =
    let iff = find_active-none_iff (key_of i) ctx.now rows in
    (
      λ h. elim (Option-cases (find_active (key_of i) ctx.now rows)) [
        | inl missing ↦ iff.0 missing
        | inr (e, found) ↦ absurd (ground (arith, ensure_found i ctx rows found))
      ],
      λ h.
          rw (ensure_missing i ctx rows (iff.1 h))
            (asked-after_approval ctx.approval i ctx (ctx.meanwhile rows)),
    )

-- A call that is asked for and not approved fails, and adds nothing to the table.
pub ensure_grant-refused :
    (i : EnsureInput) (ctx : EnsureContext) (rows : GrantTable)
    → (ensure_grant i ctx rows).asked ≡ true
    → ctx.approval ≢ approved
    → ((ensure_grant i ctx rows).rows ≡ ctx.meanwhile rows)
      × ((g : Grant) → (ensure_grant i ctx rows).result ≢ ok g)
ensure_grant-refused i ctx rows h ne = elim (Option-cases (find_active (key_of i) ctx.now rows)) [
  | inl missing ↦
      rw (ensure_missing i ctx rows missing)
        (after_approval-refused ctx.approval i ctx (ctx.meanwhile rows) ne)
  | inr (e, found) ↦ absurd (ground (arith, ensure_found i ctx rows found))
]

reused :
    (i : EnsureInput) (ctx later : EnsureContext) (rows : GrantTable) {g : Grant}
    → IsCreated i ctx rows g
    → later.now < ctx.answered_at + tool_grant_ttl_ms
    → (ensure_grant i later (create_approved i ctx rows).rows).asked ≡ false
reused i ctx later rows c early =
    let rows' = (create_approved i ctx rows).rows in
    elim (Option-cases (find_active (key_of i) later.now rows')) [
      | inl missing ↦ absurd (
          (find_active-none_iff (key_of i) later.now rows').0 missing
            (new_row (grant_input i ctx) ctx.new_id ctx.answered_at) (rw c.grown (Memᴰ-last rows _))
            (unfold new_row grant_input in
              record {
                tool = refl;
                plugin = refl;
                agent = refl;
                delegated = refl;
                live = refl;
                unexpired = early;
              }))
      | inr (e, found) ↦ ground (arith, ensure_found i later rows' found)
    ]

-- A grant that was created on an approval serves the same call again, without asking, until an hour
-- after the approval.
pub ensure_grant-reused :
    (i : EnsureInput) (ctx later : EnsureContext) (rows : GrantTable) (g : Grant)
    → (ensure_grant i ctx rows).result ≡ ok g
    → (ensure_grant i ctx rows).asked ≡ true
    → later.now < ctx.answered_at + tool_grant_ttl_ms
    → (ensure_grant i later (ensure_grant i ctx rows).rows).asked ≡ false
ensure_grant-reused i ctx later rows g h asked early =
    elim (Option-cases (find_active (key_of i) ctx.now rows)) [
      | inl missing ↦
          let m = ensure_missing i ctx rows missing in
          let (yes', c) = after_approval-ok ctx.approval i ctx (ctx.meanwhile rows) (rw m at h) in
          rw (m, after_approval-approved i ctx (ctx.meanwhile rows) yes')
            (reused i ctx later (ctx.meanwhile rows) c early)
      | inr (e, found) ↦ absurd (ground (arith, ensure_found i ctx rows found))
    ]
