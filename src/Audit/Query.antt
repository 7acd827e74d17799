-- ===== src/Audit/Query.antt =====
-- audit-log.ts: what queries return, and what a purge leaves.
use mathlib.Core.Option
use pdatahub.Audit.{
  AuditEntry, AuditTable, AuditQueryOptions, purge_older_than, limit_to, row_to_entry, query,
  count_older_than, stamp, default_limit, selects, AuditDecision, decision_text,
}
use pdatahub.Prelude.{
  arith, ltb, keep, length, not, ◌≡◌, ◌↔◌, Memᴰ, ◌≤◌, [], suc, refl, ℕ, List, IsDescending, ◌-◌,
  All, map, ◌∷◌, Memᴰ-keep, length-keep, keep-Memᴰ, zero, sort_desc, sort-IsDescending, some,
  String, ◌≢◌, ◌<◌, Option,
}

split_count :
    (cutoff : ℕ) (rows : AuditTable)
    → length rows - length (keep (λ (r : AuditEntry). not (ltb r.timestamp cutoff)) rows)
      ≡ length (keep (λ (r : AuditEntry). ltb r.timestamp cutoff) rows)
split_count cutoff [] = refl
split_count cutoff (r ∷ rows) = ground (
  arith,
  split_count cutoff rows,
  length-keep (λ (r : AuditEntry). not (ltb r.timestamp cutoff)) rows,
)

-- A purge deletes as many rows as the preview counts, and leaves exactly the rows of the table that
-- are not older than the cutoff.
pub purge-count :
    (cutoff : ℕ) (rows : AuditTable)
    → ((purge_older_than cutoff rows).1 ≡ count_older_than cutoff rows)
      × ((r : AuditEntry)
          → Memᴰ r (purge_older_than cutoff rows).0 ↔ (Memᴰ r rows × (cutoff ≤ r.timestamp)))
unfolding purge_older_than count_older_than
purge-count cutoff rows = (
  split_count cutoff rows,
  λ r. (
    λ m.
        let (listed, recent) =
          Memᴰ-keep (λ (r : AuditEntry). not (ltb r.timestamp cutoff)) r rows m in
        (listed, ground (arith, recent)),
    λ h.
        keep-Memᴰ (λ (r : AuditEntry). not (ltb r.timestamp cutoff)) r rows h.0
          (ground (arith, h.1)),
  ),
)

All-limit {ℓ κ} :
    {A : Type ℓ} (P : A → Type κ) (n : ℕ) (xs : List A) → All P xs → All P (limit_to n xs)
unfolding limit_to
All-limit P n [] h = tt
All-limit P zero (x ∷ xs) h = tt
All-limit P (suc n) (x ∷ xs) h = (h.0, All-limit P n xs h.1)

limit-IsDescending :
    (n : ℕ) (xs : AuditTable) → IsDescending stamp xs → IsDescending stamp (limit_to n xs)
unfolding limit_to
limit-IsDescending n [] h = tt
limit-IsDescending zero (x ∷ xs) h = tt
limit-IsDescending (suc n) (x ∷ xs) h =
    (All-limit (λ y. stamp y ≤ stamp x) n xs h.0, limit-IsDescending n xs h.1)

length-limit_to {ℓ} : {A : Type ℓ} (n : ℕ) (xs : List A) → length (limit_to n xs) ≤ n
unfolding limit_to
length-limit_to n [] = omega arith
length-limit_to zero (x ∷ xs) = omega arith
length-limit_to (suc n) (x ∷ xs) = omega (arith, length-limit_to n xs)

length-map {ℓ κ} :
    {A : Type ℓ} {B : Type κ} (f : A → B) (xs : List A) → length (map f xs) ≡ length xs
length-map f [] = refl
length-map f (x ∷ xs) = omega (arith, length-map f xs)

stamp-row_to_entry : (r : AuditEntry) → stamp (row_to_entry r) ≡ stamp r
unfolding row_to_entry
stamp-row_to_entry r = ground arith

All-entries :
    (n : ℕ) (xs : AuditTable)
    → All (λ y. stamp y ≤ n) xs
    → All (λ y. stamp y ≤ n) (map row_to_entry xs)
All-entries n [] h = tt
All-entries n (x ∷ xs) h = (omega (arith, stamp-row_to_entry x, h.0), All-entries n xs h.1)

entries-IsDescending :
    (xs : AuditTable) → IsDescending stamp xs → IsDescending stamp (map row_to_entry xs)
entries-IsDescending [] h = tt
entries-IsDescending (x ∷ xs) h =
    (rw (stamp-row_to_entry x) (All-entries (stamp x) xs h.0), entries-IsDescending xs h.1)

-- A query returns its entries newest first, and no more than its limit, which is 100 if none is given.
pub query-IsDescending :
    (opts : AuditQueryOptions) (rows : AuditTable)
    → IsDescending stamp (query opts rows)
      × (length (query opts rows) ≤ Option.get_or opts.limit default_limit)
unfolding query
query-IsDescending opts rows =
    let n = Option.get_or opts.limit default_limit in
    let sorted = sort_desc stamp (keep (selects opts) rows) in
    (
      entries-IsDescending (limit_to n sorted)
          (limit-IsDescending n sorted (sort-IsDescending stamp (keep (selects opts) rows))),
      rw (length-map row_to_entry (limit_to n sorted)) (length-limit_to n sorted),
    )

-- An entry that a query returns is made of a row of the table that has what the filters name.
pub record IsSelected (opts : AuditQueryOptions) (rows : AuditTable) (e : AuditEntry) : Type 0 where
  pub row : AuditEntry
  pub listed : Memᴰ row rows
  pub agent : (w : String) → opts.agent_id ≡ some w → w ≢ "" → row.input.agent_id ≡ w
  pub user : (w : String) → opts.user_id ≡ some w → w ≢ "" → row.input.user_id ≡ w
  pub tool : (w : String) → opts.tool_name ≡ some w → w ≢ "" → row.input.tool_name ≡ w
  pub decided :
      (w : AuditDecision)
      → opts.decision ≡ some w
      → decision_text row.input.decision ≡ decision_text w
  pub since : (w : ℕ) → opts.since ≡ some w → w < row.timestamp
  pub same : e ≡ row_to_entry row
