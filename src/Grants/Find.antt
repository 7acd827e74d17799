-- ===== src/Grants/Find.antt =====
-- grant-store.ts: what `findActive` finds. A grant of one hub never answers a call of another.
use mathlib.Core.Option
use pdatahub.Prelude.{
  [], none, some, true, false, refl, ok, ◌≡◌, Memᴰ, ◌<◌, ◌↔◌, ◌≤◌, arith, ◌≢◌, eq_iff, ◌++◌,
  is_null_or_eq_iff, Memᴰ-keep, ◌∷◌, Memᴰ-sort, Memᴰ-first, first-sort_max, keep-Memᴰ, inl, inr,
  first-sort_none, Bool-cases, Option-cases,
}
use mathlib.Core.Option.{Option}
use pdatahub.Grants.{
  Grant, GrantRow, GrantTable, row_to_grant, CreateInput, new_row, create, is_active, created,
  MatchKey, matches, find_active, ℕ, Bool, String, first, keep, sort_desc,
}

-- A live row for the key, as the comment on `findActive` describes it.
pub record IsMatch (q : MatchKey) (now : ℕ) (r : GrantRow) : Type 0 where
  pub tool : r.tool_name ≡ q.tool_name
  pub plugin : r.plugin ≡ q.plugin
  pub agent : r.agent_id ≡ q.agent_id
  pub delegated : r.delegated_by ≡ q.delegated_by
  pub live : r.revoked ≡ 0
  pub unexpired : now < r.expires_at

pub matches_iff :
    (q : MatchKey) (now : ℕ) (r : GrantRow) → (matches q now r ≡ true) ↔ IsMatch q now r
unfolding matches is_active
matches_iff q now r = (
  λ h. record {
    tool = ground (arith, eq_iff r.tool_name q.tool_name);
    plugin = ground (arith, eq_iff r.plugin q.plugin);
    agent = ground (arith, eq_iff r.agent_id q.agent_id);
    delegated = (is_null_or_eq_iff r.delegated_by q.delegated_by).0 (ground arith);
    live = ground arith;
    unexpired = ground arith;
  },
  λ m. ground (
    arith,
    (eq_iff r.tool_name q.tool_name).1 m.tool,
    (eq_iff r.plugin q.plugin).1 m.plugin,
    (eq_iff r.agent_id q.agent_id).1 m.agent,
    (is_null_or_eq_iff r.delegated_by q.delegated_by).1 m.delegated,
    m.live,
    m.unexpired,
  ),
)

-- The row that a found grant stands for.
pub record IsAnswer (q : MatchKey) (now : ℕ) (rows : GrantTable) (g : Grant) : Type 0 where
  pub row : GrantRow
  pub listed : Memᴰ row rows
  pub fits : IsMatch q now row
  pub same : g ≡ row_to_grant row
  pub newest : (z : GrantRow) → Memᴰ z rows → IsMatch q now z → z.created_at ≤ row.created_at

map-eq-some :
    (o : Option GrantRow) {g : Grant}
    → Option.map row_to_grant o ≡ some g
    → (r : GrantRow) × (o ≡ some r) × (g ≡ row_to_grant r)
map-eq-some none h = cc
map-eq-some (some r) h = (r, refl, ground arith)

not_member : {r : GrantRow} → Memᴰ r [] → ⊥
not_member m = elim m [ ]

map-eq-none : (o : Option GrantRow) → Option.map row_to_grant o ≡ none → o ≡ none
map-eq-none none h = refl
map-eq-none (some r) h = cc

-- A found grant is a row of the table with the tool, plugin, agent and delegating hub of the key,
-- neither revoked nor expired, and no matching row is newer.
pub find_active-IsAnswer :
    (q : MatchKey) (now : ℕ) (rows : GrantTable) (g : Grant)
    → find_active q now rows ≡ some g
    → IsAnswer q now rows g
unfolding find_active
find_active-IsAnswer q now rows g h =
    let (r, found, same) = map-eq-some (first (sort_desc created (keep (matches q now) rows))) h in
    let (listed, fits) =
      Memᴰ-keep (matches q now) r rows
        (Memᴰ-sort created r (keep (matches q now) rows) (Memᴰ-first _ found)) in
    record {
      row = r;
      listed = listed;
      fits = (matches_iff q now r).0 fits;
      same = same;
      newest = λ z m f.
          first-sort_max created (keep (matches q now) rows) found
            (keep-Memᴰ (matches q now) z rows m ((matches_iff q now z).1 f));
    }

-- Nothing is found exactly if no row matches.
pub find_active-none_iff :
    (q : MatchKey) (now : ℕ) (rows : GrantTable)
    → (find_active q now rows ≡ none) ↔ ((r : GrantRow) → Memᴰ r rows → ¬ IsMatch q now r)
unfolding find_active
find_active-none_iff q now rows =
    let found = first (sort_desc created (keep (matches q now) rows)) in
    (
      λ h r m f.
          let empty : keep (matches q now) rows ≡ [] =
            first-sort_none created (keep (matches q now) rows) (map-eq-none found h) in
          let listed : Memᴰ r (keep (matches q now) rows) =
            keep-Memᴰ (matches q now) r rows m ((matches_iff q now r).1 f) in
          not_member (rw empty at listed),
      λ none_fits. elim (Option-cases found) [
        | inl e ↦ rw e
        | inr (r, e) ↦
            let (listed, fits) =
              Memᴰ-keep (matches q now) r rows
                (Memᴰ-sort created r (keep (matches q now) rows) (Memᴰ-first _ e)) in
            absurd (none_fits r listed ((matches_iff q now r).0 fits))
      ],
    )

keep-append :
    (p : GrantRow → Bool) (xs : GrantTable) (r : GrantRow)
    → p r ≡ false
    → keep p (xs ++ r ∷ []) ≡ keep p xs
keep-append p [] r h = rw h
keep-append p (x ∷ xs) r h = ground (arith, keep-append p xs r h)

not-matches :
    (q : MatchKey) (input : CreateInput) (id : String) (now t : ℕ)
    → input.delegated_by ≢ q.delegated_by
    → matches q t (new_row input id now) ≡ false
not-matches q input id now t ne = elim (Bool-cases (matches q t (new_row input id now))) [
  | inl fits ↦
      absurd (ne (unfold new_row in ((matches_iff q t (new_row input id now)).0 fits).delegated))
  | inr other ↦ other
]

-- A grant that is created for one delegating hub, or for none, changes no answer for another.
pub find_active-create :
    (q : MatchKey) (input : CreateInput) (id : String) (now t : ℕ) (rows : GrantTable) {g : Grant}
    {rows' : GrantTable}
    → create input id now rows ≡ ok (g, rows')
    → input.delegated_by ≢ q.delegated_by
    → find_active q t rows' ≡ find_active q t rows
unfolding find_active create
find_active-create q input id now t rows {rows'} h ne =
    let other : matches q t (new_row input id now) ≡ false = not-matches q input id now t ne in
    let grown : rows' ≡ rows ++ new_row input id now ∷ [] = ground arith in
    rw (grown, keep-append (matches q t) rows (new_row input id now) other)
