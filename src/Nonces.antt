-- ===== src/Nonces.antt =====
-- packages/hub-core/src/federation/nonces.ts: replay protection for federated calls. The table
-- `federation_nonces` is the list of its rows; a time is the number of milliseconds whose ISO 8601
-- text the column holds, so that the order of the texts is the order of the numbers. `now - TTL`
-- is moved to the other side of each comparison, which is the same over the integers. The clock
-- readings of one synchronous call are one instant.
pub mod Sweep
pub mod Window
pub mod History
mod Tests
use pdatahub.Prelude.{
  ℕ, ◌+◌, String, Bool, not, ◌&&◌, List, [], ◌∷◌, ◌++◌, str_eq, ltb, if◌then◌else◌, keep, any,
}

abbrev pub nonce_ttl_ms : ℕ
nonce_ttl_ms = 600000

pub record NonceRow : Type 0 where
  pub request_id : String
  pub seen_at : ℕ

abbrev pub NonceTable : Type 0
NonceTable = List NonceRow

-- `DELETE FROM federation_nonces WHERE seen_at < cutoff`
unfoldable pub sweep : ℕ → NonceTable → NonceTable
sweep now = keep (λ r. not (ltb (r.seen_at + nonce_ttl_ms) now))

-- Whether the primary key is taken.
unfoldable pub has_id : String → NonceTable → Bool
has_id id = any (λ r. str_eq r.request_id id)

-- `INSERT OR IGNORE INTO federation_nonces`
unfoldable pub insert_or_ignore : NonceRow → NonceTable → NonceTable
insert_or_ignore r rows = if has_id r.request_id rows then rows else rows ++ r ∷ []

-- `NonceStore.record`: the sweep and the insertion of one transaction.
unfoldable pub record_nonce : String → ℕ → NonceTable → NonceTable
record_nonce id now rows =
    insert_or_ignore (record { request_id = id; seen_at = now }) (sweep now rows)

-- `NonceStore.isSeenRecently`: `request_id = ? AND seen_at > cutoff`.
unfoldable pub is_seen_recently : String → ℕ → NonceTable → Bool
is_seen_recently id now = any (λ r. str_eq r.request_id id && ltb now (r.seen_at + nonce_ttl_ms))
