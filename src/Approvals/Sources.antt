-- ===== src/Approvals/Sources.antt =====
-- approval-stream.ts: which event a decision comes from.
use pdatahub.Prelude.{
  String, ◌∷◌, [], inl, inr, List, Memᴰ, ◌++◌, ◌<◌, ◌⊎◌, ◌≡◌, sym, arith, none, some, true, Option,
  Option-cases, subst, map, lookup, Bool-cases, ap, refl, str_eq, ◌∙◌, eq_iff, false,
}
use pdatahub.Approvals.{
  PendingMap, Decision, Settled, resolved, rejected, Message, malformed, null_value, pong,
  approval_decided, unknown, on_timeout, close, handle_message, decide, is_let_in,
}
use pdatahub.Approvals.Stream.{
  Client, Output, Stream, Event, crashes, sent, closed, settles, connects, disconnects, changes,
  receives, requests, reaches, audits, revokes, reauths, accesses, closes, broadcast,
  broadcast_android, approval_request, present, audit_update, grant_revoked, plugin_reauth,
  vault_access, handle_connection, due, settle, fire, rejections, subject, is_attached, step,
}
use pdatahub.Approvals.Settles.{count, count-broadcast, count-broadcast_android}

pub Memᴰ-append : {A : Type 0} {x : A} (xs ys : List A) → Memᴰ x (xs ++ ys) → Memᴰ x xs ⊎ Memᴰ x ys
Memᴰ-append [] ys m = inr m
Memᴰ-append (z ∷ xs) ys (Memᴰ.head e) = inl (Memᴰ.head e)
Memᴰ-append (z ∷ xs) ys (Memᴰ.tail m) = elim (Memᴰ-append xs ys m) [
  | inl a ↦ inl (Memᴰ.tail a)
  | inr b ↦ inr b
]

count-pos :
    (id : String) (r : Settled) (os : List Output) → Memᴰ (settles id r) os → 0 < count id os
count-pos id r [] m = elim m [ ]
count-pos id r (settles j q ∷ os) (Memᴰ.head e) =
    let same : id ≡ j = cc in
    let hit : str_eq j id ≡ true = (eq_iff j id).1 (sym same) in rw hit (omega arith)
count-pos id r (sent n m ∷ os) (Memᴰ.head e) = cc
count-pos id r (closed n ∷ os) (Memᴰ.head e) = cc
count-pos id r (sent n m ∷ os) (Memᴰ.tail t) = count-pos id r os t
count-pos id r (closed n ∷ os) (Memᴰ.tail t) = count-pos id r os t
count-pos id r (crashes ∷ os) (Memᴰ.head e) = cc
count-pos id r (crashes ∷ os) (Memᴰ.tail t) = count-pos id r os t
count-pos id r (settles j q ∷ os) (Memᴰ.tail t) = let later = count-pos id r os t in ground arith

-- What timers and the end of the stream settle is rejected.
abbrev IsRejected : Settled → Type 0
IsRejected (resolved d) = ⊥
IsRejected (rejected m) = Unit

settle-cases :
    (id j : String) (r : Settled) (o : Option Settled) (os : List Output)
    → Memᴰ (settles id r) (settle j o os)
    → ((id ≡ j) × (o ≡ some r)) ⊎ Memᴰ (settles id r) os
unfolding settle
settle-cases id j r none os m = inr m
settle-cases id j r (some q) os (Memᴰ.head e) = inl (cc, cc)
settle-cases id j r (some q) os (Memᴰ.tail m) = inr m

on_timeout-IsRejected :
    (id : String) (p : PendingMap) (r : Settled) → (on_timeout id p).1 ≡ some r → IsRejected r
unfolding on_timeout
on_timeout-IsRejected id p r h = elim (Option-cases (lookup id p)) [
  | inl e ↦ absurd (ground (arith, e, h))
  | inr (a, e) ↦
      let same : r ≡ rejected "approval timeout" = ground (arith, e, h) in
      subst IsRejected (sym same) tt
]

fire-IsRejected :
    (id : String) (r : Settled) (ids : List String) (p : PendingMap)
    → Memᴰ (settles id r) (fire ids p).1
    → IsRejected r
unfolding fire
fire-IsRejected id r [] p m = elim m [ ]
fire-IsRejected id r (j ∷ js) p m =
    let q = on_timeout j p in
    elim (settle-cases id j r q.1 (fire js q.0).1 m) [
      | inl (e, h) ↦ on_timeout-IsRejected j p r h
      | inr later ↦ fire-IsRejected id r js q.0 later
    ]

rejections-IsRejected :
    (id : String) (r : Settled) (p : PendingMap)
    → Memᴰ (settles id r) (rejections (close p).1)
    → IsRejected r
unfolding rejections close
rejections-IsRejected id r [] m = elim m [ ]
rejections-IsRejected id r ((j, a) ∷ p) (Memᴰ.head e) =
    let same : r ≡ rejected "approval stream closed" = cc in subst IsRejected (sym same) tt
rejections-IsRejected id r ((j, a) ∷ p) (Memᴰ.tail m) = rejections-IsRejected id r p m

-- A message decides the request that it names.
handle_message-decides :
    (m : Message) (p : PendingMap) (d : Decision)
    → (handle_message m p).1 ≡ some (resolved d)
    → m ≡ approval_decided (subject m) d
unfolding handle_message decide subject
handle_message-decides malformed p d h = absurd (ground (arith, h))
handle_message-decides null_value p d h = absurd (ground (arith, h))
handle_message-decides pong p d h = absurd (ground (arith, h))
handle_message-decides unknown p d h = absurd (ground (arith, h))
handle_message-decides (approval_decided id c) p d h = elim (Option-cases (lookup id p)) [
  | inl e ↦ absurd (ground (arith, e, h))
  | inr (a, e) ↦ let same : c ≡ d = ground (arith, e, h) in ap (approval_decided id) same
]

none_sent :
    (id : String) (r : Settled) (os : List Output) → count id os ≡ 0 → ¬ Memᴰ (settles id r) os
none_sent id r os h m = let some_sent = count-pos id r os m in omega arith

none_closed :
    (id : String) (r : Settled) (cs : List Client)
    → ¬ Memᴰ (settles id r) (map (λ c. closed c.name) cs)
none_closed id r [] m = elim m [ ]
none_closed id r (c ∷ cs) (Memᴰ.head e) = cc
none_closed id r (c ∷ cs) (Memᴰ.tail m) = none_closed id r cs m

connection-none :
    (id : String) (r : Settled) (expected : Option String) (name : String) (token : Option String)
    (s : Stream)
    → ¬ Memᴰ (settles id r) (handle_connection expected name token s).1
unfolding handle_connection
connection-none id r expected name token s m = elim (Bool-cases (is_let_in expected token)) [
  | inl e ↦ elim (rw (e, handle_connection) at m) [ ]
  | inr e ↦ none_sent id r (closed name ∷ []) refl (rw (e, handle_connection) at m)
]

-- The event that a decided request comes from.
pub step-decides :
    (expected : Option String) (e : Event) (s : Stream) (id : String) (d : Decision)
    → Memᴰ (settles id (resolved d)) (step expected e s).1
    → (name : String) × (e ≡ receives name (approval_decided id d))
      × (is_attached name s.attached ≡ true)
unfolding step
step-decides expected (connects name token) s id d m =
    absurd (connection-none id (resolved d) expected name token s m)
step-decides expected (disconnects name) s id d m = elim m [ ]
step-decides expected (changes name b) s id d m = elim m [ ]
step-decides expected (receives name g) s id d m = elim (Bool-cases (is_attached name s.attached)) [
  | inl h ↦
      elim (settle-cases id (subject g) (resolved d) (handle_message g s.pending).1 []
        (rw (h, step) at m)) [
          | inl (e, f) ↦ (
            name,
            ap (receives name)
                (handle_message-decides g s.pending d f ∙ ap (λ x. approval_decided x d) (sym e)),
            h,
          )
          | inr rest ↦ elim rest [ ]
        ]
  | inr h ↦ elim (rw (h, step) at m) [ ]
]
step-decides expected (requests j a o) s id d m = absurd (
    none_sent id (resolved d) (broadcast (approval_request j a (present o)) s.clients)
      (count-broadcast id (approval_request j a (present o)) s.clients) m)
step-decides expected (reaches now) s id d m =
    absurd (fire-IsRejected id (resolved d) (due now s.pending) s.pending m)
step-decides expected (audits g) s id d m = absurd (
    none_sent id (resolved d) (broadcast (audit_update g) s.clients)
      (count-broadcast id (audit_update g) s.clients) m)
step-decides expected (revokes g) s id d m = absurd (
    none_sent id (resolved d) (broadcast (grant_revoked g) s.clients)
      (count-broadcast id (grant_revoked g) s.clients) m)
step-decides expected (reauths g) s id d m = absurd (
    none_sent id (resolved d) (broadcast_android (plugin_reauth g) s.clients)
      (count-broadcast_android id (plugin_reauth g) s.clients) m)
step-decides expected (accesses g) s id d m = absurd (
    none_sent id (resolved d) (broadcast_android (vault_access g) s.clients)
      (count-broadcast_android id (vault_access g) s.clients) m)
step-decides expected closes s id d m =
    elim (Memᴰ-append (map (λ c. closed c.name) s.clients) (rejections (close s.pending).1) m) [
      | inl a ↦ absurd (none_closed id (resolved d) s.clients a)
      | inr b ↦ absurd (rejections-IsRejected id (resolved d) s.pending b)
    ]

attached-other :
    (name n : String) (ns : List String)
    → str_eq n name ≡ false
    → is_attached name (n ∷ ns) ≡ true
    → is_attached name ns ≡ true
unfolding is_attached
attached-other name n ns f h = ground (arith, f, h)

-- A socket has a handler only if it had one or connects and is let in.
pub step-attached :
    (expected : Option String) (e : Event) (s : Stream) (name : String)
    → is_attached name (step expected e s).0.attached ≡ true
    → (is_attached name s.attached ≡ true)
      ⊎ ((token : Option String) × (e ≡ connects name token) × (is_let_in expected token ≡ true))
unfolding step handle_connection is_attached
step-attached expected (connects n token) s name h = elim (Bool-cases (is_let_in expected token)) [
  | inl e ↦ elim (Bool-cases (str_eq n name)) [
    | inl f ↦ inr (token, ap (λ x. connects x token) ((eq_iff n name).0 f), e)
    | inr f ↦ inl (attached-other name n s.attached f (rw (e, handle_connection) at h))
  ]
  | inr e ↦ inl (ground (arith, e, h, handle_connection))
]
step-attached expected (disconnects n) s name h = inl h
step-attached expected (changes n b) s name h = inl h
step-attached expected (receives n m) s name h = inl (ground (arith, h))
step-attached expected (requests j a o) s name h = inl h
step-attached expected (reaches now) s name h = inl h
step-attached expected (audits g) s name h = inl h
step-attached expected (revokes g) s name h = inl h
step-attached expected (reauths g) s name h = inl h
step-attached expected (accesses g) s name h = inl h
step-attached expected closes s name h = inl h
