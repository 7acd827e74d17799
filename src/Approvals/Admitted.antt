-- ===== src/Approvals/Admitted.antt =====
-- approval-stream.ts: only a client that gave the token decides a request.
use pdatahub.Prelude.{
  String, ◌∷◌, [], inl, inr, List, Memᴰ, ◌⊎◌, ◌≡◌, sym, arith, none, some, true, Option, subst, ap,
  str_eq, eq_iff, false, Bool-cases, cases_member, ◌≢◌,
}
use pdatahub.Approvals.{Decision, resolved, approval_decided, is_let_in, is_some_eq}
use pdatahub.Approvals.Stream.{
  Output, crashes, is_crash, Stream, Event, settles, connects, receives, is_attached, step, run,
}
use pdatahub.Approvals.Sources.{Memᴰ-append, step-decides, step-attached}

-- Where a decision comes from: a message of a socket that had a handler or was let in.
abbrev IsSource : Option String → List Event → Stream → String → Decision → String → Type 0
IsSource expected es s id d name =
    Memᴰ (receives name (approval_decided id d)) es
    × ((is_attached name s.attached ≡ true)
        ⊎ ((token : Option String) × Memᴰ (connects name token) es
            × (is_let_in expected token ≡ true)))

-- What a run does is done by its first event, or later, save for its end.
run_cons-cases :
    (expected : Option String) (e : Event) (es : List Event) (s : Stream) (o : Output)
    → o ≢ crashes
    → Memᴰ o (run expected (e ∷ es) s).1
    → Memᴰ o (step expected e s).1 ⊎ Memᴰ o (run expected es (step expected e s).0).1
unfolding run
run_cons-cases expected e es s o ne m = elim (Bool-cases (is_crash e s)) [
  | inl h ↦ elim (cases_member (rw h at m)) [
    | inl same ↦ absurd (ne same)
    | inr rest ↦ elim rest [ ]
  ]
  | inr h ↦ Memᴰ-append _ _ (rw h at m)
]

run-decides :
    (expected : Option String) (es : List Event) (s : Stream) (id : String) (d : Decision)
    → Memᴰ (settles id (resolved d)) (run expected es s).1
    → (name : String) × IsSource expected es s id d name
unfolding run
run-decides expected [] s id d m = elim m [ ]
run-decides expected (e ∷ es) s id d m =
    let now = step expected e s in
    elim (run_cons-cases expected e es s (settles id (resolved d)) (λ h. cc) m) [
      | inl here ↦
          let (name, at, attached) = step-decides expected e s id d here in
          (name, (Memᴰ.head (sym at), inl attached))
      | inr later ↦
          let (name, (at, source)) = run-decides expected es now.0 id d later in
          (
            name,
            (
              Memᴰ.tail at,
              elim source [
                | inl a ↦ elim (step-attached expected e s name a) [
                  | inl old ↦ inl old
                  | inr (token, is, let_in) ↦ inr (token, Memᴰ.head (sym is), let_in)
                ]
                | inr (token, more, let_in) ↦ inr (token, Memᴰ.tail more, let_in)
              ],
            ),
          )
    ]

let_in-token :
    (t : String) (token : Option String)
    → str_eq t "" ≡ false
    → is_let_in (some t) token ≡ true
    → token ≡ some t
unfolding is_let_in is_some_eq
let_in-token t none set h = absurd (ground (arith, set, h))
let_in-token t (some u) set h =
    let same : str_eq u t ≡ true = ground (arith, set, h) in ap some ((eq_iff u t).0 same)

-- With a token set, in every run of a stream that starts without sockets a request is resolved only with a
-- decision that a message to the socket of a client with that token has for it.
pub run-IsAdmitted :
    (t : String) (es : List Event) (s : Stream) (id : String) (d : Decision)
    → str_eq t "" ≡ false
    → s.attached ≡ []
    → Memᴰ (settles id (resolved d)) (run (some t) es s).1
    → (name : String) × Memᴰ (connects name (some t)) es
      × Memᴰ (receives name (approval_decided id d)) es
unfolding is_attached
run-IsAdmitted t es s id d set empty m =
    let (name, (message, source)) = run-decides (some t) es s id d m in
    elim source [
      | inl a ↦
          absurd (let b = subst (λ ns. is_attached name ns ≡ true) empty a in ground (arith, b))
      | inr (token, at, let_in) ↦ (
        name,
        subst (λ x. Memᴰ (connects name x) es) (let_in-token t token set let_in) at,
        message,
      )
    ]
