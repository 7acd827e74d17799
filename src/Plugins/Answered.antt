-- ===== src/Plugins/Answered.antt =====
-- plugin-process.ts: which line the end of a request comes from.
use pdatahub.Prelude.{
  [], none, some, inl, inr, refl, List, ℕ, All, Memᴰ, ◌∷◌, Option, Bool-cases, arith, All-append,
}
use pdatahub.Plugins.{
  Key, Effect, writes, settles, kills, crashes, terminations, terminated, Event, Process, step, run,
  is_crash, request, on_timeout, beat, on_silence, on_message, handle_line, cleanup, settlement,
  Reply, result, error, sends, timer, beats, silence, line, exits, blank, malformed, not_object,
  notification, message, resolved, plugin_error, timed_out, has_key,
}

module _ {R : Type 0} where
  -- The plugin has printed an answer with this key, which ends the request.
  abbrev pub IsAnswered : List (Event R) → Effect R → Type 0
  IsAnswered es (settles k (resolved r)) =
      (now : ℕ) × Memᴰ (line now (message (some k) (result r))) es
  IsAnswered es (settles k (plugin_error e)) =
      (now : ℕ) × Memᴰ (line now (message (some k) (error e))) es
  IsAnswered es (settles k (timed_out method)) = Unit
  IsAnswered es (settles k terminated) = Unit
  IsAnswered es (writes k method) = Unit
  IsAnswered es kills = Unit
  IsAnswered es crashes = Unit

  IsAnswered-more :
      (es fs : List (Event R)) (o : Effect R)
      → ((e : Event R) → Memᴰ e es → Memᴰ e fs)
      → IsAnswered es o
      → IsAnswered fs o
  IsAnswered-more es fs (settles k (resolved r)) f (now, m) =
      (now, f (line now (message (some k) (result r))) m)
  IsAnswered-more es fs (settles k (plugin_error e)) f (now, m) =
      (now, f (line now (message (some k) (error e))) m)
  IsAnswered-more es fs (settles k (timed_out method)) f h = tt
  IsAnswered-more es fs (settles k terminated) f h = tt
  IsAnswered-more es fs (writes k method) f h = tt
  IsAnswered-more es fs kills f h = tt
  IsAnswered-more es fs crashes f h = tt

  All-more :
      (es fs : List (Event R)) (os : List (Effect R))
      → ((e : Event R) → Memᴰ e es → Memᴰ e fs)
      → All (IsAnswered es) os
      → All (IsAnswered fs) os
  All-more es fs [] f h = tt
  All-more es fs (o ∷ os) f (a, h) = (IsAnswered-more es fs o f a, All-more es fs os f h)

  terminations-IsAnswered :
      (es : List (Event R)) (ks : List Key) → All (IsAnswered es) (terminations ks)
  unfolding terminations
  terminations-IsAnswered es [] = tt
  terminations-IsAnswered es (k ∷ ks) = (tt, terminations-IsAnswered es ks)

  on_message-IsAnswered :
      (now : ℕ) (k : Option Key) (r : Reply R) (p : Process)
      → All (IsAnswered (line now (message k r) ∷ [])) (on_message now k r p).1
  unfolding on_message settlement
  on_message-IsAnswered now none r p = tt
  on_message-IsAnswered now (some k) (result r) p = elim (Bool-cases (has_key k p.pending)) [
    | inl e ↦ rw (e, on_message) ((now, Memᴰ.head refl), tt)
    | inr e ↦ rw (e, on_message) tt
  ]
  on_message-IsAnswered now (some k) (error m) p = elim (Bool-cases (has_key k p.pending)) [
    | inl e ↦ rw (e, on_message) ((now, Memᴰ.head refl), tt)
    | inr e ↦ rw (e, on_message) tt
  ]

  step-IsAnswered : (e : Event R) (p : Process) → All (IsAnswered (e ∷ [])) (step e p).1
  unfolding step request handle_line cleanup
  step-IsAnswered (sends method) p = (tt, tt)
  step-IsAnswered (timer n method) p = unfold on_timeout in ground arith
  step-IsAnswered (beats uuid) p = unfold beat in ground arith
  step-IsAnswered (silence heartbeat_ms now uuid) p = unfold on_silence in ground arith
  step-IsAnswered (line now blank) p = tt
  step-IsAnswered (line now malformed) p = tt
  step-IsAnswered (line now not_object) p = (tt, tt)
  step-IsAnswered (line now notification) p = tt
  step-IsAnswered (line now (message k r)) p = on_message-IsAnswered now k r p
  step-IsAnswered exits p = terminations-IsAnswered (exits ∷ []) p.pending

  -- Every request that ends with a result or an error of the plugin ends with that of a line that the plugin
  -- has printed with the key of this request.
  pub run-IsAnswered : (es : List (Event R)) (p : Process) → All (IsAnswered es) (run es p).1
  unfolding run
  run-IsAnswered [] p = tt
  run-IsAnswered (e ∷ es) p =
      let os = (step e p).1 in
      let first : All (IsAnswered (e ∷ es)) os =
        All-more (e ∷ []) (e ∷ es) os (λ x m. only x m) (step-IsAnswered e p) in
      elim (Bool-cases (is_crash e)) [
        | inl c ↦ rw (c, run) first
        | inr c ↦
            rw (c, run)
              (All-append (IsAnswered (e ∷ es)) os (run es (step e p).0).1 first (
                All-more es (e ∷ es) (run es (step e p).0).1 (λ x m. Memᴰ.tail m)
                  (run-IsAnswered es (step e p).0)))
      ]
    where
      only : (x : Event R) → Memᴰ x (e ∷ []) → Memᴰ x (e ∷ es)
      only x (Memᴰ.head h) = Memᴰ.head h
      only x (Memᴰ.tail m) = elim m [ ]
