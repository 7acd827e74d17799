-- ===== src/Nonces/History.antt =====
-- nonces.ts against a specification: the list of all accepted calls, which is never swept. `admit`
-- is the use that packages/hub-core/src/server.ts makes of the store: the replay test of step 5,
-- and the recording of a call that passes all later tests.
use pdatahub.Prelude.{
  ℕ, ◌+◌, ◌≤◌, String, ◌≡◌, refl, Bool, true, false, ◌&&◌, ◌||◌, List, [], ◌∷◌, ◌++◌, arith, ap,
  ◌∙◌, str_eq, ltb, ◌==◌, if◌then◌else◌, any, Bool-cases, inl, inr,
}
use pdatahub.Nonces.{
  NonceRow, NonceTable, nonce_ttl_ms, sweep, has_id, insert_or_ignore, record_nonce,
  is_seen_recently,
}
use pdatahub.Nonces.Window.{at_boundary, seen-record}

-- A call that passes the other tests, with its time.
abbrev pub Attempt : Type 0
Attempt = String × ℕ

unfoldable pub admit : String → ℕ → NonceTable → NonceTable × Bool
admit id now rows =
    if is_seen_recently id now rows then (rows, false) else (record_nonce id now rows, true)

-- The verdicts on a sequence of calls.
unfoldable pub verdicts : List Attempt → NonceTable → List Bool
verdicts [] rows = []
verdicts ((id, now) ∷ rest) rows =
    let (rows', verdict) = admit id now rows in verdict ∷ verdicts rest rows'

-- The specification: a call is a replay if its request_id was accepted within the window.
unfoldable pub accepted_within : String → ℕ → List Attempt → Bool
accepted_within id now = any (λ a. str_eq a.0 id && ltb now (a.1 + nonce_ttl_ms))

unfoldable pub accepted_at_edge : String → ℕ → List Attempt → Bool
accepted_at_edge id now = any (λ a. str_eq a.0 id && (a.1 + nonce_ttl_ms) == now)

unfoldable pub spec_verdicts : List Attempt → List Attempt → List Bool
spec_verdicts [] accepted = []
spec_verdicts ((id, now) ∷ rest) accepted =
    if accepted_within id now accepted
    then false ∷ spec_verdicts rest accepted
    else true ∷ spec_verdicts rest ((id, now) ∷ accepted)

-- Times do not fall, from `now` on.
abbrev pub IsOrdered : ℕ → List Attempt → Type 0
IsOrdered now [] = Unit
IsOrdered now (a ∷ rest) = (now ≤ a.1) × IsOrdered a.1 rest

-- No call comes exactly one window after an accepted call with its request_id.
unfoldable pub IsOffEdge : List Attempt → List Attempt → Type 0
IsOffEdge [] accepted = Unit
IsOffEdge ((id, now) ∷ rest) accepted =
    (accepted_at_edge id now accepted ≡ false)
    × IsOffEdge rest (if accepted_within id now accepted then accepted else (id, now) ∷ accepted)

boundary-sweep :
    (j : String) (now later : ℕ) (rows : NonceTable)
    → at_boundary j later rows ≡ false
    → at_boundary j later (sweep now rows) ≡ false
unfolding at_boundary sweep
boundary-sweep j now later [] h = refl
boundary-sweep j now later (r ∷ rows) h = ground (arith, boundary-sweep j now later rows)

boundary-append :
    (j : String) (later : ℕ) (rows : NonceTable) (r : NonceRow)
    → at_boundary j later (rows ++ r ∷ [])
      ≡ (at_boundary j later rows || (str_eq r.request_id j && (r.seen_at + nonce_ttl_ms) == later))
unfolding at_boundary
boundary-append j later [] r = ground arith
boundary-append j later (q ∷ rows) r = ground (arith, boundary-append j later rows r)

boundary-record :
    (id j : String) (now later : ℕ) (rows : NonceTable)
    → at_boundary j later rows ≡ false
    → (str_eq id j && (now + nonce_ttl_ms) == later) ≡ false
    → at_boundary j later (record_nonce id now rows) ≡ false
unfolding record_nonce insert_or_ignore
boundary-record id j now later rows h e = elim (Bool-cases (has_id id (sweep now rows))) [
  | inl old ↦ rw old (boundary-sweep j now later rows h)
  | inr new ↦ rw (new, boundary-append, boundary-sweep j now later rows h) e
]

-- The table answers as the history does, from `now` on.
record Agrees (now : ℕ) (rows : NonceTable) (accepted : List Attempt) : Type 0 where
  seen :
      (id : String) (later : ℕ)
      → now ≤ later
      → is_seen_recently id later rows ≡ accepted_within id later accepted
  edge :
      (id : String) (later : ℕ)
      → accepted_at_edge id later accepted ≡ false
      → at_boundary id later rows ≡ false

Agrees-later :
    (now later : ℕ) (rows : NonceTable) (accepted : List Attempt)
    → now ≤ later
    → Agrees now rows accepted
    → Agrees later rows accepted
Agrees-later now later rows accepted le a = record {
  seen = λ id t h. a.seen id t (omega arith);
  edge = a.edge;
}

Agrees-record :
    (id : String) (now : ℕ) (rows : NonceTable) (accepted : List Attempt)
    → Agrees now rows accepted
    → accepted_within id now accepted ≡ false
    → accepted_at_edge id now accepted ≡ false
    → Agrees now (record_nonce id now rows) ((id, now) ∷ accepted)
unfolding accepted_within accepted_at_edge
Agrees-record id now rows accepted a new off = record {
  seen = λ j later le.
      seen-record id j now later rows (a.seen id now (omega arith) ∙ new) (a.edge id now off) le
      ∙ ground (arith, a.seen j later le);
  edge = λ j later h.
      boundary-record id j now later rows (a.edge j later (ground arith)) (ground arith);
}

verdicts-eq-spec :
    (attempts : List Attempt) (now : ℕ) (rows : NonceTable) (accepted : List Attempt)
    → Agrees now rows accepted
    → IsOrdered now attempts
    → IsOffEdge attempts accepted
    → verdicts attempts rows ≡ spec_verdicts attempts accepted
unfolding verdicts spec_verdicts IsOffEdge admit
verdicts-eq-spec [] now rows accepted a o off = refl
verdicts-eq-spec ((id, t) ∷ rest) now rows accepted a o off =
    let b : Agrees t rows accepted = Agrees-later now t rows accepted o.0 a in
    elim (Bool-cases (accepted_within id t accepted)) [
      | inl replay ↦
          rw (b.seen id t (omega arith), replay)
            (ap (λ vs. false ∷ vs)
              (verdicts-eq-spec rest t rows accepted b o.1 (rw replay at off.1)))
      | inr new ↦
          rw (b.seen id t (omega arith), new)
            (ap (λ vs. true ∷ vs)
              (verdicts-eq-spec rest t (record_nonce id t rows) ((id, t) ∷ accepted)
                (Agrees-record id t rows accepted b new off.0) o.1 (rw new at off.1)))
    ]

-- From an empty table, and with clock times that do not fall, the store accepts and refuses exactly
-- the calls that the unswept history does: a call is refused if and only if its request_id was
-- accepted less than one window before. The condition is that no call comes exactly one window
-- after an accepted call with the same request_id.
pub verdicts-refine-history :
    (attempts : List Attempt)
    → IsOrdered 0 attempts
    → IsOffEdge attempts []
    → verdicts attempts [] ≡ spec_verdicts attempts []
verdicts-refine-history attempts o off =
    verdicts-eq-spec attempts 0 [] []
      (record {
        seen = λ id later h. unfold is_seen_recently accepted_within in refl;
        edge = λ id later h. unfold at_boundary in refl;
      })
      o off
