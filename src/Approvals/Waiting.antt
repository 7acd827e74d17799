-- ===== src/Approvals/Waiting.antt =====
-- approval-stream.ts: every request is settled, and once.
use pdatahub.Prelude.{
  ◌≡◌, ◌++◌, false, ◌∷◌, String, [], inl, inr, refl, List, lookup, Option-cases, ◌∙◌, Bool-cases,
  arith, ◌≢◌, Option, subst, IsKeyed, eq_iff, sym, lookup-insert, remove-IsKeyed, insert-IsKeyed,
  All,
}
use pdatahub.Approvals.{
  PendingMap, Message, malformed, null_value, pong, approval_decided, unknown, request_approval,
  on_timeout, close, handle_message, decide, is_let_in, Decision,
}
use pdatahub.Approvals.Stream.{
  Stream, Event, connects, disconnects, changes, receives, requests, reaches, audits, revokes,
  reauths, accesses, closes, handle_connection, due, fire, rejections, is_attached, is_null,
  is_crash, step, run, audit_update, grant_revoked, plugin_reauth, vault_access, approval_request,
  present,
}
use pdatahub.Approvals.Settles.{
  count, Settles, count-append, Settles-trans, handle_message-Settles, fire-Settles, close-Settles,
  count-broadcast, count-broadcast_android, count-closed,
}

-- The event is no request with this id, and no message that is null.
abbrev pub Other : String → Event → Type 0
Other id (requests j a o) = j ≢ id
Other id (receives name m) = is_null m ≡ false
Other id e = Unit

handle_connection-Settles :
    (id : String) (expected : Option String) (name : String) (token : Option String) (s : Stream)
    → Settles id s.pending
        (handle_connection expected name token s).0.pending
        (count id (handle_connection expected name token s).1)
unfolding handle_connection
handle_connection-Settles id expected name token s = elim (Bool-cases (is_let_in expected token)) [
  | inl e ↦ rw (e, handle_connection) (inl (refl, refl))
  | inr e ↦ rw (e, handle_connection) (inl (refl, refl))
]

step-Settles :
    (id : String) (expected : Option String) (e : Event) (s : Stream)
    → IsKeyed s.pending
    → Other id e
    → Settles id s.pending (step expected e s).0.pending (count id (step expected e s).1)
unfolding step request_approval close
step-Settles id expected (connects name token) s k h =
    handle_connection-Settles id expected name token s
step-Settles id expected (disconnects name) s k h = inl (refl, refl)
step-Settles id expected (changes name b) s k h = inl (refl, refl)
step-Settles id expected (receives name m) s k h = elim (Bool-cases (is_attached name s.attached)) [
  | inl e ↦ rw (e, step) (handle_message-Settles id m s.pending)
  | inr e ↦ rw (e, step) (inl (refl, refl))
]
step-Settles id expected (requests j a o) s k h = inl (
  lookup-insert j id a s.pending ∙ ground (arith, h, eq_iff j id),
  count-broadcast id (approval_request j a (present o)) s.clients,
)
step-Settles id expected (reaches now) s k h = fire-Settles id (due now s.pending) s.pending
step-Settles id expected (audits entry) s k h =
    inl (refl, count-broadcast id (audit_update entry) s.clients)
step-Settles id expected (revokes g) s k h =
    inl (refl, count-broadcast id (grant_revoked g) s.clients)
step-Settles id expected (reauths n) s k h =
    inl (refl, count-broadcast_android id (plugin_reauth n) s.clients)
step-Settles id expected (accesses n) s k h =
    inl (refl, count-broadcast_android id (vault_access n) s.clients)
step-Settles id expected closes s k h =
    subst (Settles id s.pending (close s.pending).0)
      (sym (count-closed id s.clients (rejections (close s.pending).1)))
      (close-Settles id s.pending k)

on_timeout-IsKeyed : (id : String) (p : PendingMap) → IsKeyed p → IsKeyed (on_timeout id p).0
unfolding on_timeout
on_timeout-IsKeyed id p k = elim (Option-cases (lookup id p)) [
  | inl e ↦ rw (e, on_timeout) k
  | inr (a, e) ↦ rw (e, on_timeout) (remove-IsKeyed id p k)
]

decide-IsKeyed :
    (id : String) (d : Decision) (p : PendingMap) → IsKeyed p → IsKeyed (decide id d p).0
unfolding decide
decide-IsKeyed id d p k = elim (Option-cases (lookup id p)) [
  | inl e ↦ rw (e, decide) k
  | inr (a, e) ↦ rw (e, decide) (remove-IsKeyed id p k)
]

handle_message-IsKeyed : (m : Message) (p : PendingMap) → IsKeyed p → IsKeyed (handle_message m p).0
unfolding handle_message
handle_message-IsKeyed malformed p k = k
handle_message-IsKeyed null_value p k = k
handle_message-IsKeyed pong p k = k
handle_message-IsKeyed (approval_decided id d) p k = decide-IsKeyed id d p k
handle_message-IsKeyed unknown p k = k

fire-IsKeyed : (ids : List String) (p : PendingMap) → IsKeyed p → IsKeyed (fire ids p).0
unfolding fire
fire-IsKeyed [] p k = k
fire-IsKeyed (id ∷ ids) p k = fire-IsKeyed ids (on_timeout id p).0 (on_timeout-IsKeyed id p k)

pub step-IsKeyed :
    (expected : Option String) (e : Event) (s : Stream)
    → IsKeyed s.pending
    → IsKeyed (step expected e s).0.pending
unfolding step handle_connection request_approval close
step-IsKeyed expected (connects name token) s k = elim (Bool-cases (is_let_in expected token)) [
  | inl e ↦ rw (e, handle_connection) k
  | inr e ↦ rw (e, handle_connection) k
]
step-IsKeyed expected (disconnects name) s k = k
step-IsKeyed expected (changes name b) s k = k
step-IsKeyed expected (receives name m) s k = elim (Bool-cases (is_attached name s.attached)) [
  | inl e ↦ rw (e, step) (handle_message-IsKeyed m s.pending k)
  | inr e ↦ rw (e, step) k
]
step-IsKeyed expected (requests id a o) s k = insert-IsKeyed id a s.pending k
step-IsKeyed expected (reaches now) s k = fire-IsKeyed (due now s.pending) s.pending k
step-IsKeyed expected (audits entry) s k = k
step-IsKeyed expected (revokes id) s k = k
step-IsKeyed expected (reauths n) s k = k
step-IsKeyed expected (accesses n) s k = k
step-IsKeyed expected closes s k = tt

Other-runs_on : (id : String) (e : Event) (s : Stream) → Other id e → is_crash e s ≡ false
unfolding is_crash
Other-runs_on id (receives name m) s h = rw h refl
Other-runs_on id (connects name token) s h = refl
Other-runs_on id (disconnects name) s h = refl
Other-runs_on id (changes name b) s h = refl
Other-runs_on id (requests j a o) s h = refl
Other-runs_on id (reaches now) s h = refl
Other-runs_on id (audits entry) s h = refl
Other-runs_on id (revokes g) s h = refl
Other-runs_on id (reauths n) s h = refl
Other-runs_on id (accesses n) s h = refl
Other-runs_on id closes s h = refl

-- An event that does not end the run.
pub run-on :
    (id : String) (expected : Option String) (e : Event) (es : List Event) (s : Stream)
    → Other id e
    → run expected (e ∷ es) s ≡ (
      (run expected es (step expected e s).0).0,
      (step expected e s).1 ++ (run expected es (step expected e s).0).1,
    )
unfolding run
run-on id expected e es s h = rw (Other-runs_on id e s h) refl

pub run-IsKeyed :
    (expected : Option String) (es : List Event) (s : Stream)
    → IsKeyed s.pending
    → IsKeyed (run expected es s).0.pending
unfolding run
run-IsKeyed expected [] s k = k
run-IsKeyed expected (e ∷ es) s k = elim (Bool-cases (is_crash e s)) [
  | inl h ↦ rw h k
  | inr h ↦ rw h (run-IsKeyed expected es (step expected e s).0 (step-IsKeyed expected e s k))
]

pub run-Settles :
    (id : String) (expected : Option String) (es : List Event) (s : Stream)
    → IsKeyed s.pending
    → All (Other id) es
    → Settles id s.pending (run expected es s).0.pending (count id (run expected es s).1)
unfolding run
run-Settles id expected [] s k a = inl (refl, refl)
run-Settles id expected (e ∷ es) s k (h, a) =
    let now = step expected e s in
    let later = run expected es now.0 in
    rw (run-on id expected e es s h, count-append id now.1 later.1)
      (Settles-trans id s.pending now.0.pending later.0.pending (count id now.1) (count id later.1)
        (step-Settles id expected e s k h)
        (run-Settles id expected es now.0 (step-IsKeyed expected e s k) a))
