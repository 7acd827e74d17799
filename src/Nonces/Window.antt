-- ===== src/Nonces/Window.antt =====
-- nonces.ts: from when and until when a recorded request_id counts as seen.
use pdatahub.Prelude.{
  ℕ, ◌+◌, ◌≤◌, String, ◌≡◌, ◌≢◌, refl, Bool, true, false, ◌&&◌, ◌||◌, [], ◌∷◌, arith, str_eq,
  eq_iff, eq_refl, ltb, ◌==◌, any, Bool-cases, inl, inr,
}
use pdatahub.Nonces.{
  NonceTable, nonce_ttl_ms, sweep, has_id, insert_or_ignore, record_nonce, is_seen_recently,
  NonceRow,
}
use pdatahub.Nonces.Sweep.{IsKeyed, seen-sweep, seen-append, seen_of_no_id}

-- Whether a row of `id` stands exactly at the edge of the window that ends at `now`.
unfoldable pub at_boundary : String → ℕ → NonceTable → Bool
at_boundary id now = any (λ r. str_eq r.request_id id && (r.seen_at + nonce_ttl_ms) == now)

-- A request_id that is neither seen nor at the edge is not in the swept table.
pub has_id-sweep_of_unseen :
    (id : String) (now : ℕ) (rows : NonceTable)
    → is_seen_recently id now rows ≡ false
    → at_boundary id now rows ≡ false
    → has_id id (sweep now rows) ≡ false
unfolding is_seen_recently at_boundary has_id sweep
has_id-sweep_of_unseen id now [] h b = refl
has_id-sweep_of_unseen id now (r ∷ rows) h b = ground (arith, has_id-sweep_of_unseen id now rows)

-- What every query answers after `record`, by what it answered before.
pub seen-record :
    (id j : String) (now later : ℕ) (rows : NonceTable)
    → is_seen_recently id now rows ≡ false
    → at_boundary id now rows ≡ false
    → now ≤ later
    → is_seen_recently j later (record_nonce id now rows)
      ≡ (is_seen_recently j later rows || (str_eq id j && ltb later (now + nonce_ttl_ms)))
unfolding record_nonce insert_or_ignore
seen-record id j now later rows h b le =
    rw (has_id-sweep_of_unseen id now rows h b, seen-append, seen-sweep j now later rows le) refl

-- A request_id that `record` takes at `now` is refused at every later time before `now` plus the
-- retention window, and not from then on, if it had not been seen and no row of it stands exactly
-- at the edge of the window.
pub record-window :
    (id : String) (now later : ℕ) (rows : NonceTable)
    → is_seen_recently id now rows ≡ false
    → at_boundary id now rows ≡ false
    → now ≤ later
    → is_seen_recently id later (record_nonce id now rows) ≡ ltb later (now + nonce_ttl_ms)
unfolding record_nonce insert_or_ignore
record-window id now later rows h b le =
    rw
      (
        has_id-sweep_of_unseen id now rows h b,
        seen-append,
        seen_of_no_id id later (sweep now rows) (has_id-sweep_of_unseen id now rows h b),
        eq_refl,
      )
      refl

-- Recording one request_id changes no later answer about another one.
pub record-frame :
    (id j : String) (now later : ℕ) (rows : NonceTable)
    → id ≢ j
    → now ≤ later
    → is_seen_recently j later (record_nonce id now rows) ≡ is_seen_recently j later rows
unfolding record_nonce insert_or_ignore
record-frame id j now later rows ne le = elim (Bool-cases (has_id id (sweep now rows))) [
  | inl old ↦ rw old (seen-sweep j now later rows le)
  | inr new ↦ rw (new, seen-append) (ground (arith, eq_iff id j, seen-sweep j now later rows le))
]

at_boundary-has_id :
    (id : String) (now : ℕ) (rows : NonceTable)
    → at_boundary id now rows ≡ true
    → has_id id (sweep now rows) ≡ true
unfolding at_boundary has_id sweep
at_boundary-has_id id now [] h = h
at_boundary-has_id id now (r ∷ rows) h = ground (arith, at_boundary-has_id id now rows)

boundary_of_no_id :
    (id : String) (now : ℕ) (rows : NonceTable)
    → has_id id rows ≡ false
    → at_boundary id now rows ≡ false
unfolding has_id at_boundary
boundary_of_no_id id now [] h = refl
boundary_of_no_id id now (r ∷ rows) h = ground (arith, boundary_of_no_id id now rows)

boundary-cons :
    (id : String) (now : ℕ) (r : NonceRow) (rows : NonceTable)
    → at_boundary id now (r ∷ rows)
      ≡ (str_eq r.request_id id && (r.seen_at + nonce_ttl_ms) == now || at_boundary id now rows)
unfolding at_boundary
boundary-cons id now r rows = refl

seen-cons :
    (id : String) (later : ℕ) (r : NonceRow) (rows : NonceTable)
    → is_seen_recently id later (r ∷ rows) ≡ (
        str_eq r.request_id id && ltb later (r.seen_at + nonce_ttl_ms)
        || is_seen_recently id later rows)
unfolding is_seen_recently
seen-cons id later r rows = refl

unseen_at_boundary :
    (id : String) (now later : ℕ) (rows : NonceTable)
    → IsKeyed rows
    → at_boundary id now rows ≡ true
    → now ≤ later
    → is_seen_recently id later rows ≡ false
unseen_at_boundary id now later [] k h le = unfold is_seen_recently in refl
unseen_at_boundary id now later (r ∷ rows) k h le = ground (
  arith,
  boundary-cons id now r rows,
  seen-cons id later r rows,
  eq_iff r.request_id id,
  unseen_at_boundary id now later rows k.1,
  boundary_of_no_id r.request_id now rows k.0,
  seen_of_no_id r.request_id later rows k.0,
)

-- The edge of the window: a request_id whose row is exactly as old as the retention window is not
-- seen, the sweep keeps its row, so `record` ignores the new time, and the request_id that was
-- just recorded is not seen at that time or at any later one.
pub record_at_boundary :
    (id : String) (now later : ℕ) (rows : NonceTable)
    → IsKeyed rows
    → at_boundary id now rows ≡ true
    → now ≤ later
    → (is_seen_recently id now rows ≡ false)
      × (is_seen_recently id later (record_nonce id now rows) ≡ false)
unfolding record_nonce insert_or_ignore
record_at_boundary id now later rows k h le = (
  unseen_at_boundary id now now rows k h (omega arith),
  rw (at_boundary-has_id id now rows h, seen-sweep id now later rows le)
      (unseen_at_boundary id now later rows k h le),
)
