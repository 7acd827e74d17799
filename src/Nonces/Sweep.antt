-- ===== src/Nonces/Sweep.antt =====
-- nonces.ts: what the lazy sweep of `record` keeps, and the primary key of the table.
use pdatahub.Prelude.{
  ℕ, ◌+◌, ◌≤◌, String, ◌≡◌, refl, false, ◌&&◌, ◌||◌, [], ◌∷◌, ◌++◌, arith, str_eq, eq_iff, ltb, All,
  All-append, Bool-cases, inl, inr,
}
use pdatahub.Nonces.{
  NonceRow, NonceTable, nonce_ttl_ms, sweep, has_id, insert_or_ignore, record_nonce,
  is_seen_recently,
}

-- No two rows share a request_id.
abbrev pub IsKeyed : NonceTable → Type 0
IsKeyed [] = Unit
IsKeyed (r ∷ rows) = (has_id r.request_id rows ≡ false) × IsKeyed rows

-- Every row lies in the retention window that ends at `now`.
abbrev pub IsFresh : ℕ → NonceTable → Type 0
IsFresh now = All (λ r. now ≤ r.seen_at + nonce_ttl_ms)

pub has_id-sweep :
    (id : String) (now : ℕ) (rows : NonceTable)
    → has_id id rows ≡ false
    → has_id id (sweep now rows) ≡ false
unfolding has_id sweep
has_id-sweep id now [] h = refl
has_id-sweep id now (r ∷ rows) h = ground (arith, has_id-sweep id now rows)

sweep-IsKeyed : (now : ℕ) (rows : NonceTable) → IsKeyed rows → IsKeyed (sweep now rows)
unfolding sweep
sweep-IsKeyed now [] h = tt
sweep-IsKeyed now (r ∷ rows) h = elim (Bool-cases (ltb (r.seen_at + nonce_ttl_ms) now)) [
  | inl old ↦ rw old (sweep-IsKeyed now rows h.1)
  | inr new ↦ rw new (has_id-sweep r.request_id now rows h.0, sweep-IsKeyed now rows h.1)
]

has_id-append :
    (id : String) (rows : NonceTable) (r : NonceRow)
    → has_id id (rows ++ r ∷ []) ≡ (has_id id rows || str_eq r.request_id id)
unfolding has_id
has_id-append id [] r = ground arith
has_id-append id (q ∷ rows) r = ground (arith, has_id-append id rows r)

insert-IsKeyed :
    (r : NonceRow) (rows : NonceTable)
    → has_id r.request_id rows ≡ false
    → IsKeyed rows
    → IsKeyed (rows ++ r ∷ [])
unfolding has_id
insert-IsKeyed r [] h k = (refl, tt)
insert-IsKeyed r (q ∷ rows) h k = (
  ground (
    arith,
    has_id-append q.request_id rows r,
    eq_iff q.request_id r.request_id,
    eq_iff r.request_id q.request_id,
  ),
  insert-IsKeyed r rows (ground arith) k.1,
)

-- `record` keeps the request_ids of the table distinct.
pub record-IsKeyed :
    (id : String) (now : ℕ) (rows : NonceTable) → IsKeyed rows → IsKeyed (record_nonce id now rows)
unfolding record_nonce insert_or_ignore
record-IsKeyed id now rows k = elim (Bool-cases (has_id id (sweep now rows))) [
  | inl old ↦ rw old (sweep-IsKeyed now rows k)
  | inr new ↦ rw new (insert-IsKeyed _ (sweep now rows) new (sweep-IsKeyed now rows k))
]

sweep-IsFresh : (now : ℕ) (rows : NonceTable) → IsFresh now (sweep now rows)
unfolding sweep
sweep-IsFresh now [] = tt
sweep-IsFresh now (r ∷ rows) = ground (arith, sweep-IsFresh now rows)

-- After `record` at `now`, no row is older than the retention window.
pub record-IsFresh :
    (id : String) (now : ℕ) (rows : NonceTable) → IsFresh now (record_nonce id now rows)
unfolding record_nonce insert_or_ignore
record-IsFresh id now rows = elim (Bool-cases (has_id id (sweep now rows))) [
  | inl old ↦ rw old (sweep-IsFresh now rows)
  | inr new ↦ rw new (All-append _ (sweep now rows) _ (sweep-IsFresh now rows) (omega arith, tt))
]

-- The sweep at `now` hides nothing from a later query.
pub seen-sweep :
    (id : String) (now later : ℕ) (rows : NonceTable)
    → now ≤ later
    → is_seen_recently id later (sweep now rows) ≡ is_seen_recently id later rows
unfolding is_seen_recently sweep
seen-sweep id now later [] h = refl
seen-sweep id now later (r ∷ rows) h = ground (arith, seen-sweep id now later rows h)

pub seen-append :
    (id : String) (now : ℕ) (rows : NonceTable) (r : NonceRow)
    → is_seen_recently id now (rows ++ r ∷ []) ≡ (
        is_seen_recently id now rows
        || (str_eq r.request_id id && ltb now (r.seen_at + nonce_ttl_ms)))
unfolding is_seen_recently
seen-append id now [] r = ground arith
seen-append id now (q ∷ rows) r = ground (arith, seen-append id now rows r)

-- A key that is not in the table has not been seen.
pub seen_of_no_id :
    (id : String) (now : ℕ) (rows : NonceTable)
    → has_id id rows ≡ false
    → is_seen_recently id now rows ≡ false
unfolding has_id is_seen_recently
seen_of_no_id id now [] h = refl
seen_of_no_id id now (r ∷ rows) h = ground (arith, seen_of_no_id id now rows)
