-- ===== src/Approvals/Settles.antt =====
-- approval-stream.ts: what each operation does to a request: nothing, or it settles it.
use pdatahub.Prelude.{
  ◌∷◌, String, [], none, inl, inr, suc, refl, List, ℕ, if◌then◌else◌, ◌++◌, lookup, ◌+◌,
  Option-cases, str_eq, ◌≡◌, ◌∙◌, Bool-cases, arith, ◌⊎◌, ◌≢◌, some, remove, Option, subst, IsKeyed,
  eq_iff, sym, lookup-remove, lookup-cons, map, ap,
}
use pdatahub.Approvals.{
  PendingApproval, PendingMap, Settled, Message, malformed, null_value, pong, approval_decided,
  unknown, on_timeout, close, handle_message, decide, rejected, Decision, resolved,
}
use pdatahub.Approvals.Stream.{
  Client, Notice, Output, crashes, sent, closed, settles, broadcast, broadcast_android, settle,
  fire, rejections, subject,
}

-- How often a request is settled.
abbrev pub count : String → List Output → ℕ
count id [] = 0
count id (sent n m ∷ os) = count id os
count id (closed n ∷ os) = count id os
count id (crashes ∷ os) = count id os
count id (settles j r ∷ os) = if str_eq j id then suc (count id os) else count id os

pub count-append :
    (id : String) (os ps : List Output) → count id (os ++ ps) ≡ count id os + count id ps
count-append id [] ps = omega arith
count-append id (sent n m ∷ os) ps = count-append id os ps
count-append id (closed n ∷ os) ps = count-append id os ps
count-append id (crashes ∷ os) ps = count-append id os ps
count-append id (settles j r ∷ os) ps = ground (arith, count-append id os ps)

-- Nothing happens to a request, or it waited, is settled once and waits no more.
abbrev pub Settles : String → PendingMap → PendingMap → ℕ → Type 0
Settles id p q n =
    ((lookup id q ≡ lookup id p) × (n ≡ 0))
    ⊎ ((lookup id p ≢ none) × (lookup id q ≡ none) × (n ≡ 1))

pub Settles-trans :
    (id : String) (p q r : PendingMap) (m n : ℕ)
    → Settles id p q m
    → Settles id q r n
    → Settles id p r (m + n)
Settles-trans id p q r m n (inl (e, a)) (inl (f, b)) = inl (f ∙ e, omega arith)
Settles-trans id p q r m n (inl (e, a)) (inr (w, f, b)) = inr ((λ x. w (e ∙ x)), f, omega arith)
Settles-trans id p q r m n (inr (w, e, a)) (inl (f, b)) = inr (w, f ∙ e, omega arith)
Settles-trans id p q r m n (inr (w, e, a)) (inr (v, f, b)) = absurd (v e)

-- A request that waits, removed and settled.
pub remove-Settles :
    (id j : String) (p : PendingMap) (r : Settled)
    → lookup j p ≢ none
    → Settles id p (remove j p) (count id (settles j r ∷ []))
remove-Settles id j p r w = elim (Bool-cases (str_eq j id)) [
  | inl e ↦
      let same : j ≡ id = (eq_iff j id).0 e in
      rw e (inr (subst (λ x. lookup x p ≢ none) same w, lookup-remove j id p ∙ rw e refl, refl))
  | inr e ↦ rw e (inl (lookup-remove j id p ∙ rw e refl, refl))
]

pub some≢none :
    (j : String) (p : PendingMap) {a : PendingApproval} → lookup j p ≡ some a → lookup j p ≢ none
some≢none j p e h = absurd (ground (arith, e, h))

on_timeout-Settles :
    (id j : String) (p : PendingMap)
    → Settles id p (on_timeout j p).0 (count id (settle j (on_timeout j p).1 []))
unfolding on_timeout settle
on_timeout-Settles id j p = elim (Option-cases (lookup j p)) [
  | inl e ↦ rw (e, on_timeout) (inl (refl, refl))
  | inr (a, e) ↦
      rw (e, on_timeout) (remove-Settles id j p (rejected "approval timeout") (some≢none j p e))
]

decide-Settles :
    (id j : String) (d : Decision) (p : PendingMap)
    → Settles id p (decide j d p).0 (count id (settle j (decide j d p).1 []))
unfolding decide settle
decide-Settles id j d p = elim (Option-cases (lookup j p)) [
  | inl e ↦ rw (e, decide) (inl (refl, refl))
  | inr (a, e) ↦ rw (e, decide) (remove-Settles id j p (resolved d) (some≢none j p e))
]

pub handle_message-Settles :
    (id : String) (m : Message) (p : PendingMap)
    → Settles id p (handle_message m p).0 (count id (settle (subject m) (handle_message m p).1 []))
unfolding handle_message settle subject
handle_message-Settles id malformed p = inl (refl, refl)
handle_message-Settles id null_value p = inl (refl, refl)
handle_message-Settles id pong p = inl (refl, refl)
handle_message-Settles id (approval_decided j d) p = decide-Settles id j d p
handle_message-Settles id unknown p = inl (refl, refl)

count-settle :
    (id j : String) (r : Option Settled) (os : List Output)
    → count id (settle j r os) ≡ count id (settle j r []) + count id os
unfolding settle
count-settle id j none os = omega arith
count-settle id j (some r) os = ground arith

pub fire-Settles :
    (id : String) (ids : List String) (p : PendingMap)
    → Settles id p (fire ids p).0 (count id (fire ids p).1)
unfolding fire
fire-Settles id [] p = inl (refl, refl)
fire-Settles id (j ∷ js) p =
    let q = (on_timeout j p).0 in
    let first = on_timeout-Settles id j p in
    let rest = fire-Settles id js q in
    subst (Settles id p (fire js q).0) (sym (count-settle id j (on_timeout j p).1 (fire js q).1)) (
      Settles-trans id p q (fire js q).0 (count id (settle j (on_timeout j p).1 []))
        (count id (fire js q).1) first rest)

pub lookup-empty : (id : String) → lookup {V = PendingApproval} id [] ≡ none
unfolding lookup
lookup-empty id = refl

pub close-Settles :
    (id : String) (p : PendingMap) → IsKeyed p → Settles id p [] (count id (rejections (close p).1))
unfolding rejections close
close-Settles id [] k = inl (refl, refl)
close-Settles id ((j, a) ∷ p) (fresh, k) =
    let n = count id (rejections (close p).1) in
    let rest : Settles id p [] n = close-Settles id p k in
    elim (Bool-cases (str_eq j id)) [
      | inr e ↦
          let at : lookup id ((j, a) ∷ p) ≡ lookup id p = lookup-cons id j a p ∙ rw e refl in
          elim rest [
            | inl (f, b) ↦ rw e (inl (f ∙ sym at, b))
            | inr (w, f, b) ↦ rw e (inr ((λ x. w (sym at ∙ x)), f, b))
          ]
      | inl e ↦
          let gone : lookup id p ≡ none =
            subst (λ x. lookup x p ≡ none) ((eq_iff j id).0 e) fresh in
          let at : lookup id ((j, a) ∷ p) ≡ some a = lookup-cons id j a p ∙ rw e refl in
          elim rest [
            | inl (f, b) ↦ rw e (inr (some≢none id ((j, a) ∷ p) at, lookup-empty id, ap suc b))
            | inr (w, f, b) ↦ absurd (w gone)
          ]
    ]

pub count-broadcast : (id : String) (n : Notice) (cs : List Client) → count id (broadcast n cs) ≡ 0
unfolding broadcast
count-broadcast id n [] = refl
count-broadcast id n (c ∷ cs) = ground (arith, count-broadcast id n cs)

pub count-broadcast_android :
    (id : String) (n : Notice) (cs : List Client) → count id (broadcast_android n cs) ≡ 0
unfolding broadcast_android
count-broadcast_android id n [] = refl
count-broadcast_android id n (c ∷ cs) = ground (arith, count-broadcast_android id n cs)

pub count-closed :
    (id : String) (cs : List Client) (os : List Output)
    → count id (map (λ c. closed c.name) cs ++ os) ≡ count id os
count-closed id [] os = refl
count-closed id (c ∷ cs) os = count-closed id cs os
