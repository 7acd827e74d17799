-- ===== src/Sdk/Transport/Replies.antt =====
-- `listen`: every request with an id is answered, in order.
use mathlib.Core.List.{append-nil}
use text.Mathlib.TextLemmas.{nil-append}
use pdatahub.Prelude.{
  String, ◌∷◌, [], none, some, true, false, inl, inr, ℕ, Option, List, ◌==◌, if◌then◌else◌, map,
  Bool-cases, ◌≡◌, str_eq, ◌++◌, refl, ap, subst, ◌≢◌, sym, ◌∙◌, ap₂, All, str_append,
}
use pdatahub.RateLimit.Route.{trim}
use pdatahub.Sdk.Transport.{
  Request, Parsed, Response, Answer, finish, Run, malformed, null_value, value, reply, failure,
  returns, returns_null, throws, throws_nothing, settles, never, silent, take_lines, take_line,
  process_lines, process_line, process_value, handle_request, is_version_2, respond, ignore,
  conclude, is_late, run_of, and_then, listen_from, listen,
}
use pdatahub.Sdk.Transport.Lines.{concat, listen-concat, and_then-true}

abbrev pub response_id : Response → String
response_id (reply id result) = id
response_id (failure id number message more) = id

-- What a handler does when it answers: it returns a response with the request's id, or throws an exception, or, under a
-- timeout, takes for ever; and it comes to an end on a notification.
abbrev pub Answers : ℕ → Option String → Answer → Type 0
Answers timeout none never = ⊥
Answers timeout none (settles after (returns r)) = Unit
Answers timeout none (settles after returns_null) = Unit
Answers timeout none (settles after (throws message)) = Unit
Answers timeout none (settles after throws_nothing) = ⊥
Answers timeout (some id) never = (timeout == 0) ≡ false
Answers timeout (some id) (settles after (returns r)) = response_id r ≡ id
Answers timeout (some id) (settles after returns_null) = ⊥
Answers timeout (some id) (settles after (throws message)) = Unit
Answers timeout (some id) (settles after throws_nothing) = ⊥

-- The ids that ask for a response.
abbrev ids_of : Option String → List String
ids_of none = []
ids_of (some id) = id ∷ []

abbrev asked : Parsed → List String
asked malformed = []
asked null_value = []
asked (value r) = if is_version_2 r then ids_of r.id else []

abbrev pub request_ids : (String → Parsed) → List String → List String
request_ids parse [] = []
request_ids parse (l ∷ ls) =
    (if str_eq (trim l) "" then [] else asked (parse (trim l))) ++ request_ids parse ls

-- The run has gone on and has written responses with these ids.
abbrev pub Wrote : {H : Type 0} → List String → Run H → Type 0
Wrote ids r = (map response_id r.written ≡ ids) × (r.goes_on ≡ true)

respond-Wrote :
    {H : Type 0} (h : H) (timeout : ℕ) (id : String) (a : Answer)
    → Answers timeout (some id) a
    → Wrote (id ∷ []) (run_of h (respond timeout id a))
unfolding respond run_of conclude
respond-Wrote h timeout id never e = rw e (refl, refl)
respond-Wrote h timeout id (settles after (returns r)) e =
    elim (Bool-cases (is_late timeout after)) [
      | inl late ↦ rw late (refl, refl)
      | inr early ↦ rw early (ap (λ x. x ∷ []) e, refl)
    ]
respond-Wrote h timeout id (settles after returns_null) e = absurd e
respond-Wrote h timeout id (settles after throws_nothing) e = absurd e
respond-Wrote h timeout id (settles after (throws m)) e =
    elim (Bool-cases (is_late timeout after)) [
      | inl late ↦ rw late (refl, refl)
      | inr early ↦ rw early (refl, refl)
    ]

ignore-Wrote :
    {H : Type 0} (h : H) (timeout : ℕ) (a : Answer)
    → Answers timeout none a
    → Wrote [] (run_of h (ignore a))
unfolding ignore run_of
ignore-Wrote h timeout never e = absurd e
ignore-Wrote h timeout (settles after (returns r)) e = (refl, refl)
ignore-Wrote h timeout (settles after returns_null) e = (refl, refl)
ignore-Wrote h timeout (settles after (throws m)) e = (refl, refl)
ignore-Wrote h timeout (settles after throws_nothing) e = absurd e

finish-Wrote :
    {H : Type 0} (h : H) (timeout : ℕ) (id : Option String) (a : Answer)
    → Answers timeout id a
    → Wrote (ids_of id) (run_of h (finish timeout id a))
unfolding finish
finish-Wrote h timeout none a e = ignore-Wrote h timeout a e
finish-Wrote h timeout (some id) a e = respond-Wrote h timeout id a e

map-append :
    (xs ys : List Response) → map response_id (xs ++ ys) ≡ map response_id xs ++ map response_id ys
map-append [] ys = refl
map-append (x ∷ xs) ys = ap (λ zs. response_id x ∷ zs) (map-append xs ys)

and_then-Wrote :
    {H : Type 0} (ids more : List String) (r : Run H) (f : H → Run H)
    → Wrote ids r
    → Wrote more (f r.state)
    → Wrote (ids ++ more) (and_then r f)
and_then-Wrote ids more r f (a, e) (b, g) =
    subst (Wrote (ids ++ more)) (sym (and_then-true r f e))
      (map-append r.written (f r.state).written ∙ ap₂ (λ xs ys. xs ++ ys) a b, g)

module _ {H : Type 0} (parse : String → Parsed) (handler : Request → H → H × Answer) (timeout : ℕ)
    (answers : (r : Request) (h : H) → Answers timeout r.id (handler r h).1) where
  process_value-Wrote :
      (p : Parsed) (h : H)
      → p ≢ null_value
      → Wrote (asked p) (
          run_of
            (process_value parse handler timeout p h).0
            (process_value parse handler timeout p h).1)
  unfolding process_value run_of handle_request
  process_value-Wrote malformed h n = (refl, refl)
  process_value-Wrote null_value h n = absurd (n refl)
  process_value-Wrote (value r) h n = elim (Bool-cases (is_version_2 r)) [
    | inr e ↦ rw (e, process_value) (refl, refl)
    | inl e ↦
        rw (e, process_value)
          (finish-Wrote (handler r h).0 timeout r.id (handler r h).1 (answers r h))
  ]

  take_line-Wrote :
      (line : String) (h : H)
      → parse (trim line) ≢ null_value
      → Wrote
          (if str_eq (trim line) "" then [] else asked (parse (trim line)))
          (take_line parse handler timeout line h)
  unfolding take_line process_line run_of
  take_line-Wrote line h n = elim (Bool-cases (str_eq (trim line) "")) [
    | inl e ↦ rw (e, take_line) (refl, refl)
    | inr e ↦ rw (e, take_line) (process_value-Wrote (parse (trim line)) h n)
  ]

  process_lines-Wrote :
      (lines : List String) (h : H)
      → All (λ l. parse (trim l) ≢ null_value) lines
      → Wrote (request_ids parse lines) (process_lines parse handler timeout lines h)
  unfolding process_lines run_of
  process_lines-Wrote [] h n = (refl, refl)
  process_lines-Wrote (l ∷ ls) h (n, more) =
      let first = take_line parse handler timeout l h in
      and_then-Wrote (if str_eq (trim l) "" then [] else asked (parse (trim l)))
        (request_ids parse ls) first (process_lines parse handler timeout ls)
        (take_line-Wrote l h n) (process_lines-Wrote ls first.state more)

-- If the handler answers, and no line is the text of `null`, then `listen` goes on to the end of its input, and
-- the responses that it writes have the ids of the requests in its lines, each once and in their order.
pub listen-Wrote :
    {H : Type 0} (parse : String → Parsed) (handler : Request → H → H × Answer) (timeout : ℕ)
    (chunk : String) (chunks : List String) (h : H)
    → ((r : Request) (k : H) → Answers timeout r.id (handler r k).1)
    → All (λ l. parse (trim l) ≢ null_value) (take_lines (str_append chunk (concat chunks))).0
    → Wrote
        (request_ids parse (take_lines (str_append chunk (concat chunks))).0)
        (listen parse handler timeout (chunk ∷ chunks) h)
unfolding listen listen_from run_of
listen-Wrote parse handler timeout chunk chunks h answers n =
    let text = str_append chunk (concat chunks) in
    let lines = (take_lines text).0 in
    let all = process_lines parse handler timeout lines h in
    let ids = request_ids parse lines in
    let (wrote, on) = process_lines-Wrote parse handler timeout answers lines h n in
    let end : Wrote ids (and_then all (λ k. run_of k silent)) =
      subst (λ x. Wrote x (and_then all (λ k. run_of k silent))) (append-nil ids)
        (and_then-Wrote ids [] all (λ k. run_of k silent) (wrote, on) (refl, refl)) in
    subst (Wrote ids) (sym (listen-concat parse handler timeout chunk chunks h)) (
      subst
        (λ s. Wrote ids (
          and_then (process_lines parse handler timeout (take_lines s).0 h) (λ k. run_of k silent)))
        (sym (nil-append text)) end)
