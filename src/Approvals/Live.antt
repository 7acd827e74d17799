-- ===== src/Approvals/Live.antt =====
-- approval-stream.ts: a request does not wait for ever.
use mathlib.Core.List.{append_assoc}
use pdatahub.Prelude.{
  String, ◌∷◌, [], none, some, true, inl, inr, refl, List, ℕ, lookup, Option, Bool, ◌≡◌, ◌++◌, any,
  ◌∙◌, Option-cases, arith, ◌+◌, str_eq, lookup-remove, Bool-cases, ◌≤◌, eq_refl, eq_iff, subst,
  sym, lookup-cons, ◌⊎◌, IsKeyed, leb, All, lookup-insert, ap, ap₂,
}
use pdatahub.Approvals.{PendingApproval, PendingMap, request_approval, on_timeout}
use pdatahub.Approvals.Stream.{
  is_crash, Origin, Stream, Event, requests, reaches, due, fire, step, run, broadcast,
  approval_request, present,
}
use pdatahub.Approvals.Settles.{
  count, Settles, count-append, Settles-trans, some≢none, fire-Settles, count-broadcast,
  lookup-empty,
}
use pdatahub.Approvals.Waiting.{Other, run-on, step-IsKeyed, run-Settles, run-IsKeyed}

-- The id is one of the list.
abbrev has : String → List String → Bool
has id ids = any (λ j. str_eq j id) ids

Settles-none :
    (id : String) (p q : PendingMap) (n : ℕ)
    → Settles id p q n
    → lookup id p ≡ none
    → lookup id q ≡ none
Settles-none id p q n (inl (e, a)) h = e ∙ h
Settles-none id p q n (inr (w, e, a)) h = e

on_timeout-gone : (id : String) (p : PendingMap) → lookup id (on_timeout id p).0 ≡ none
unfolding on_timeout
on_timeout-gone id p = elim (Option-cases (lookup id p)) [
  | inl e ↦ rw (e, on_timeout) e
  | inr (a, e) ↦ rw (e, on_timeout) (lookup-remove id id p ∙ rw (eq_refl id) refl)
]

fire-gone :
    (id : String) (ids : List String) (p : PendingMap)
    → has id ids ≡ true
    → lookup id (fire ids p).0 ≡ none
unfolding fire
fire-gone id [] p h = absurd (ground (arith, h))
fire-gone id (j ∷ js) p h =
    let q = (on_timeout j p).0 in
    elim (Bool-cases (str_eq j id)) [
      | inl e ↦
          let same : j ≡ id = (eq_iff j id).0 e in
          let gone : lookup id q ≡ none =
            subst (λ x. lookup id (on_timeout x p).0 ≡ none) (sym same) (on_timeout-gone id p) in
          Settles-none id q (fire js q).0 (count id (fire js q).1) (fire-Settles id js q) gone
      | inr e ↦ fire-gone id js q (ground (arith, e, h))
    ]

due-has :
    (id : String) (now : ℕ) (p : PendingMap) (a : PendingApproval)
    → lookup id p ≡ some a
    → a.created_at + a.timeout_ms ≤ now
    → has id (due now p) ≡ true
unfolding due
due-has id now [] a h late = absurd (some≢none id [] h (lookup-empty id))
due-has id now ((j, b) ∷ p) a h late = elim (Bool-cases (str_eq j id)) [
  | inl e ↦
      let at : lookup id ((j, b) ∷ p) ≡ some b = lookup-cons id j b p ∙ rw e refl in
      let same : b ≡ a = cc in
      let hit : leb (b.created_at + b.timeout_ms) now ≡ true =
        subst (λ x. leb (x.created_at + x.timeout_ms) now ≡ true) (sym same)
          (ground (arith, late)) in
      rw (hit, e) refl
  | inr e ↦
      let at : lookup id p ≡ some a = sym (lookup-cons id j b p ∙ rw e refl) ∙ h in
      let later = due-has id now p a at late in
      elim (Bool-cases (leb (b.created_at + b.timeout_ms) now)) [
        | inl f ↦ rw (f, e) later
        | inr f ↦ rw f later
      ]
]

run-append :
    (id : String) (expected : Option String) (es fs : List Event) (s : Stream)
    → All (Other id) es
    → run expected (es ++ fs) s ≡ (
      (run expected fs (run expected es s).0).0,
      (run expected es s).1 ++ (run expected fs (run expected es s).0).1,
    )
unfolding run
run-append id expected [] fs s others = refl
run-append id expected (e ∷ es) fs s (h, others) =
    let now = step expected e s in
    let later = run expected es now.0 in
    rw
      (
        run-on id expected e (es ++ fs) s h,
        run-on id expected e es s h,
        run-append id expected es fs now.0 others,
        append_assoc now.1 later.1 (run expected fs later.0).1,
      )
      refl

-- At the end of its time a request has been settled.
reaches-none :
    (id : String) (expected : Option String) (s : Stream) (a : PendingApproval) (now : ℕ)
    → (lookup id s.pending ≡ some a) ⊎ (lookup id s.pending ≡ none)
    → a.created_at + a.timeout_ms ≤ now
    → lookup id (step expected (reaches now) s).0.pending ≡ none
unfolding step
reaches-none id expected s a now (inl h) late =
    fire-gone id (due now s.pending) s.pending (due-has id now s.pending a h late)
reaches-none id expected s a now (inr h) late =
    let ids = due now s.pending in
    Settles-none id s.pending (fire ids s.pending).0 (count id (fire ids s.pending).1)
      (fire-Settles id ids s.pending) h

settled_once :
    (id : String) (p q r : PendingMap) (m n : ℕ) {a : PendingApproval}
    → lookup id p ≡ some a
    → Settles id p q m
    → Settles id q r n
    → lookup id r ≡ none
    → 0 + (m + n) ≡ 1
settled_once id p q r m n w one two gone = elim (Settles-trans id p q r m n one two) [
  | inl (e, f) ↦ absurd (some≢none id p w (sym e ∙ gone))
  | inr (v, e, f) ↦ omega arith
]

-- Whatever happens after a request, and in whatever order, but for another request with its id and a message that is
-- null, if the clock reaches the end of its time it is settled exactly once.
pub count-run :
    (id : String) (expected : Option String) (a : PendingApproval) (o : Origin) (s : Stream)
    (es fs : List Event) (now : ℕ)
    → IsKeyed s.pending
    → All (Other id) es
    → All (Other id) fs
    → a.created_at + a.timeout_ms ≤ now
    → count id (run expected (requests id a o ∷ es ++ (reaches now ∷ fs)) s).1 ≡ 1
unfolding run step request_approval is_crash
count-run id expected a o s es fs now k b c late =
    let s0 = (step expected (requests id a o) s).0 in
    let k0 = step-IsKeyed expected (requests id a o) s k in
    let waits : lookup id s0.pending ≡ some a =
      lookup-insert id id a s.pending ∙ rw (eq_refl id) refl in
    let rest = reaches now ∷ fs in
    let first = run expected es s0 in
    let one = run-Settles id expected es s0 k0 b in
    let k1 = run-IsKeyed expected es s0 k0 in
    let last = run expected rest first.0 in
    let two = run-Settles id expected rest first.0 k1 (tt, c) in
    let state : (lookup id first.0.pending ≡ some a) ⊎ (lookup id first.0.pending ≡ none) =
      elim one [ inl (e, f) ↦ inl (e ∙ waits) | inr (w, e, f) ↦ inr e ] in
    let mid = (step expected (reaches now) first.0).0 in
    let k2 = step-IsKeyed expected (reaches now) first.0 k1 in
    let gone : lookup id last.0.pending ≡ none =
      Settles-none id mid.pending last.0.pending (count id (run expected fs mid).1)
        (run-Settles id expected fs mid k2 c) (reaches-none id expected first.0 a now state late) in
    let notices = broadcast (approval_request id a (present o)) s.clients in
    ap (λ r. count id (notices ++ r.1)) (run-append id expected es rest s0 b)
    ∙ count-append id notices (first.1 ++ last.1)
    ∙ ap₂ (λ m n. m + n) (count-broadcast id (approval_request id a (present o)) s.clients)
        (count-append id first.1 last.1)
    ∙ settled_once id s0.pending first.0.pending last.0.pending (count id first.1) (count id last.1)
        waits one two gone
