-- ===== src/Plugins/Pending.antt =====
-- plugin-process.ts: each request of a plugin's process is settled once.
use pdatahub.Plugins.{
  Key, request_id, ping_id, key_eq, Effect, writes, settles, kills, crashes, terminations, has_key,
  delete_key, set_key, Event, Process, step, run, is_crash, spawned, request, on_timeout, beat,
  on_silence, on_message, handle_line, cleanup, Line, Reply, sends, timer, beats, silence, line,
  exits, blank, malformed, not_object, notification, message,
}
-- How often a key waits.
use pdatahub.Prelude.{
  [], true, suc, refl, ℕ, if◌then◌else◌, List, leb, ◌&&◌, ltb, ◌∷◌, ◌++◌, ◌≡◌, ◌≤◌, ◌+◌, arith, ◌↔◌,
  ap, eq_iff, none, some, String, Option, inl, inr, Bool-cases, false, All,
}

abbrev pub waiting : Key → List Key → ℕ
waiting k [] = 0
waiting k (j ∷ js) = if key_eq k j then suc (waiting k js) else waiting k js

-- Whether a number was given to a request.
abbrev pub issued : ℕ → ℕ → ℕ
issued n next = if leb 1 n && ltb n next then 1 else 0

module _ {R : Type 0} where
  -- How often a request is settled.
  abbrev pub count : ℕ → List (Effect R) → ℕ
  count n [] = 0
  count n (writes k method ∷ os) = count n os
  count n (settles k s ∷ os) = if key_eq (request_id n) k then suc (count n os) else count n os
  count n (kills ∷ os) = count n os
  count n (crashes ∷ os) = count n os

  count-append : (n : ℕ) (os ps : List (Effect R)) → count n (os ++ ps) ≡ count n os + count n ps
  count-append n [] ps = omega arith
  count-append n (writes k method ∷ os) ps = count-append n os ps
  count-append n (settles k s ∷ os) ps = ground (arith, count-append n os ps)
  count-append n (kills ∷ os) ps = count-append n os ps
  count-append n (crashes ∷ os) ps = count-append n os ps

waiting-append : (k : Key) (js ks : List Key) → waiting k (js ++ ks) ≡ waiting k js + waiting k ks
waiting-append k [] ks = omega arith
waiting-append k (j ∷ js) ks = ground (arith, waiting-append k js ks)

pub key_eq_iff : (j k : Key) → (key_eq j k ≡ true) ↔ (j ≡ k)
unfolding key_eq
key_eq_iff (request_id m) (request_id n) =
    ((λ e. ap request_id (ground (arith, e))), (λ e. ground (arith, e)))
key_eq_iff (request_id m) (ping_id t) =
    ((λ e. absurd (ground (arith, e))), (λ e. ground (arith, e)))
key_eq_iff (ping_id s) (request_id n) =
    ((λ e. absurd (ground (arith, e))), (λ e. ground (arith, e)))
key_eq_iff (ping_id s) (ping_id t) =
    ((λ e. ap ping_id ((eq_iff s t).0 e)), (λ e. ground (arith, e, eq_iff s t)))

has_key-waiting : (k : Key) (ks : List Key) → (has_key k ks ≡ true) ↔ (1 ≤ waiting k ks)
unfolding has_key
has_key-waiting k [] = ((λ e. absurd (ground (arith, e))), (λ e. absurd (omega (arith, e))))
has_key-waiting k (j ∷ js) = ground (arith, has_key-waiting k js)

waiting-delete_key :
    (j k : Key) (ks : List Key)
    → waiting j (delete_key k ks) ≡ (if key_eq j k then 0 else waiting j ks)
unfolding delete_key
waiting-delete_key j k [] = ground arith
waiting-delete_key j k (i ∷ is) =
    ground (arith, waiting-delete_key j k is, key_eq_iff j k, key_eq_iff k i, key_eq_iff j i)

waiting-set_key :
    (j k : Key) (ks : List Key)
    → waiting j ks ≤ 1
    → waiting j (set_key k ks) ≡ (if key_eq j k then 1 else waiting j ks)
unfolding set_key
waiting-set_key j k ks w =
    ground (arith, w, has_key-waiting k ks, key_eq_iff j k, waiting-append j ks (k ∷ []))

pub count-terminations :
    (R : Type 0) (n : ℕ) (ks : List Key)
    → count {R = R} n (terminations ks) ≡ waiting (request_id n) ks
unfolding terminations
count-terminations R n [] = refl
count-terminations R n (k ∷ ks) = ground (arith, count-terminations R n ks)

-- No request waits that is not issued, and numbers are positive.
abbrev IsBalanced : ℕ → Process → Type 0
IsBalanced n p = (waiting (request_id n) p.pending ≤ issued n p.next_id) × (1 ≤ p.next_id)

-- What is settled or waits afterwards was waiting or is issued now.
abbrev Steps : {R : Type 0} → ℕ → Process → Process × List (Effect R) → Type 0
Steps n p (q, os) =
    (count n os + waiting (request_id n) q.pending + issued n p.next_id
      ≡ waiting (request_id n) p.pending + issued n q.next_id)
    × (1 ≤ q.next_id)

module _ (R : Type 0) (n : ℕ) (p : Process) (b : IsBalanced n p) where
  request-Steps : (method : String) → Steps n p (request {R = R} method p)
  unfolding request key_eq
  request-Steps method =
      ground (arith, b.0, b.1, waiting-set_key (request_id n) (request_id p.next_id) p.pending)

  on_timeout-Steps : (m : ℕ) (method : String) → Steps n p (on_timeout {R = R} m method p)
  unfolding on_timeout key_eq
  on_timeout-Steps m method = ground (
    arith,
    b.0,
    b.1,
    has_key-waiting (request_id m) p.pending,
    waiting-delete_key (request_id n) (request_id m) p.pending,
  )

  beat-Steps : (uuid : String) → Steps n p (beat {R = R} uuid p)
  unfolding beat key_eq
  beat-Steps uuid =
      ground (arith, b.0, b.1, waiting-set_key (request_id n) (ping_id uuid) p.pending)

  on_message-Steps : (now : ℕ) (k : Option Key) (r : Reply R) → Steps n p (on_message now k r p)
  unfolding on_message
  on_message-Steps now none r = (omega (arith, b.0), b.1)
  on_message-Steps now (some k) r = ground (
    arith,
    b.0,
    b.1,
    has_key-waiting k p.pending,
    key_eq_iff (request_id n) k,
    waiting-delete_key (request_id n) k p.pending,
  )

  on_silence-Steps :
      (heartbeat_ms now : ℕ) (uuid : String)
      → Steps n p (on_silence {R = R} heartbeat_ms now uuid p)
  unfolding on_silence
  on_silence-Steps heartbeat_ms now uuid = ground (arith, b.1)

  handle_line-Steps : (now : ℕ) (l : Line R) → Steps n p (handle_line now l p)
  unfolding handle_line
  handle_line-Steps now blank = (omega arith, b.1)
  handle_line-Steps now malformed = (omega arith, b.1)
  handle_line-Steps now not_object = (omega arith, b.1)
  handle_line-Steps now notification = (omega arith, b.1)
  handle_line-Steps now (message k r) = on_message-Steps now k r

  step-Steps : (e : Event R) → Steps n p (step e p)
  unfolding step cleanup
  step-Steps (sends method) = request-Steps method
  step-Steps (timer m method) = on_timeout-Steps m method
  step-Steps (beats uuid) = beat-Steps uuid
  step-Steps (silence heartbeat_ms now uuid) = on_silence-Steps heartbeat_ms now uuid
  step-Steps (line now l) = handle_line-Steps now l
  step-Steps exits = (omega (arith, count-terminations R n p.pending), b.1)

Steps-IsBalanced :
    {R : Type 0} (n : ℕ) (p q : Process) (os : List (Effect R))
    → IsBalanced n p
    → Steps n p (q, os)
    → IsBalanced n q
Steps-IsBalanced n p q os (w, _) (s, next) = (omega (arith, w, s), next)

Steps-trans :
    {R : Type 0} (n : ℕ) (p q r : Process) (os ps : List (Effect R))
    → Steps n p (q, os)
    → Steps n q (r, ps)
    → Steps n p (r, os ++ ps)
Steps-trans n p q r os ps (s, _) (t, next) = (omega (arith, s, t, count-append n os ps), next)

run-Steps :
    {R : Type 0} (n : ℕ) (es : List (Event R)) (p : Process) → IsBalanced n p → Steps n p (run es p)
unfolding run
run-Steps n [] p b = (omega arith, b.1)
run-Steps n (e ∷ es) p b =
    let first = step-Steps _ n p b e in
    let q = (step e p).0 in
    let os = (step e p).1 in
    elim (Bool-cases (is_crash e)) [
      | inl c ↦ rw (c, run) first
      | inr c ↦
          rw (c, run)
            (Steps-trans n p q (run es q).0 os (run es q).1 first
              (run-Steps n es q (Steps-IsBalanced n p q os b first)))
    ]

-- However requests, lines, timers and the exit follow each other, each request that was sent is settled once or
-- waits, and not both; a number that was given to no request is not settled.
pub run-settles :
    {R : Type 0} (n : ℕ) (es : List (Event R))
    → count n (run es spawned).1 + waiting (request_id n) (run es spawned).0.pending
      ≡ issued n (run es spawned).0.next_id
run-settles n es =
    let steps = run-Steps n es spawned (ground arith, omega arith) in ground (arith, steps.0)

exit-pending :
    {R : Type 0} (es : List (Event R)) (p : Process)
    → All (λ e. is_crash e ≡ false) es
    → (run (es ++ exits ∷ []) p).0.pending ≡ []
unfolding run step cleanup is_crash
exit-pending [] p calm = refl
exit-pending (e ∷ es) p (c, calm) = rw (c, run) (exit-pending es (step e p).0 calm)

-- Once its process has exited, without a line that crashes the hub, each request that was sent is settled exactly
-- once, and no number that was given to no request is settled.
pub exit-settles :
    {R : Type 0} (n : ℕ) (es : List (Event R))
    → All (λ e. is_crash e ≡ false) es
    → count n (run (es ++ exits ∷ []) spawned).1
      ≡ issued n (run (es ++ exits ∷ []) spawned).0.next_id
exit-settles n es calm =
    ground (arith, run-settles n (es ++ exits ∷ []), exit-pending es spawned calm)
