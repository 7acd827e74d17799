-- ===== src/Sdk/Transport/Lines.antt =====
-- `listen`: how the input is cut into chunks makes no difference.
use Prim.Native.Char.{Char, code}
use mathlib.Core.List.{append_assoc}
use text.Mathlib.TextLemmas.{append-nil, cons-append, append_assoc as text_assoc}
use pdatahub.Prelude.{
  String, ◌∷◌, str_append, ◌≡◌, ◌++◌, [], inl, inr, refl, List, ap, Bool-cases, ◌∙◌, ◌==◌, true, ℕ,
  false, sym,
}
use pdatahub.Sdk.Transport.{
  Request, Parsed, Response, Answer, put_char, take_lines, process_lines, listen_from, listen,
  and_then, run_of, Run, behind, take_line,
}

-- The text of the chunks.
abbrev pub concat : List String → String
concat [] = ""
concat (s ∷ ss) = str_append s (concat ss)

put_char-break :
    (c : Char) (lines : List String) (rest : String)
    → code c == 10 ≡ true
    → put_char c lines rest ≡ ("" ∷ lines, rest)
unfolding put_char
put_char-break c [] rest e = rw (e, put_char) refl
put_char-break c (l ∷ ls) rest e = rw (e, put_char) refl

put_char-append :
    (c : Char) (lines : List String) (rest t : String)
    → let after = take_lines (str_append rest t) in
      let all = put_char c lines rest in
      put_char c (lines ++ after.0) after.1
      ≡ (all.0 ++ (take_lines (str_append all.1 t)).0, (take_lines (str_append all.1 t)).1)
unfolding take_lines put_char
put_char-append c [] rest t = elim (Bool-cases (code c == 10)) [
  | inl e ↦
      rw e
        (put_char-break c (take_lines (str_append rest t)).0 (take_lines (str_append rest t)).1 e)
  | inr e ↦ rw (e, cons-append c rest t) refl
]
put_char-append c (l ∷ ls) rest t = elim (Bool-cases (code c == 10)) [
  | inl e ↦ rw (e, put_char) refl
  | inr e ↦ rw (e, put_char) refl
]

-- Text behind the lines that were taken: its lines follow, the first of them begun in the buffer.
take_lines-append :
    (s t : String)
    → take_lines (str_append s t) ≡ (
      ((take_lines s).0 ++ (take_lines (str_append (take_lines s).1 t)).0),
      (take_lines (str_append (take_lines s).1 t)).1,
    )
unfolding take_lines
take_lines-append String.[] t = refl
take_lines-append (String.◌∷◌ c s) t = rw (cons-append c s t) (
    ap (λ p. put_char c p.0 p.1) (take_lines-append s t)
    ∙ put_char-append c (take_lines s).0 (take_lines s).1 t)

module _ {H : Type 0} where
  and_then-false : (r : Run H) (f : H → Run H) → r.goes_on ≡ false → and_then r f ≡ r
  unfolding and_then
  and_then-false r f e = ap (λ b. elim b [ false ↦ r | true ↦ behind r.written (f r.state) ]) e

  pub and_then-true :
      (r : Run H) (f : H → Run H) → r.goes_on ≡ true → and_then r f ≡ behind r.written (f r.state)
  unfolding and_then
  and_then-true r f e = ap (λ b. elim b [ false ↦ r | true ↦ behind r.written (f r.state) ]) e

  and_then-behind :
      (rs : List Response) (r : Run H) (f : H → Run H)
      → and_then (behind rs r) f ≡ behind rs (and_then r f)
  and_then-behind rs r f = elim (Bool-cases r.goes_on) [
    | inr e ↦ and_then-false (behind rs r) f e ∙ ap (behind rs) (sym (and_then-false r f e))
    | inl e ↦
        and_then-true (behind rs r) f e
        ∙ ap (λ xs. record (f r.state) { written = xs })
            (append_assoc rs r.written (f r.state).written)
        ∙ ap (behind rs) (sym (and_then-true r f e))
  ]

  and_then_assoc :
      (r : Run H) (f g : H → Run H) → and_then (and_then r f) g ≡ and_then r (λ h. and_then (f h) g)
  and_then_assoc r f g = elim (Bool-cases r.goes_on) [
    | inr e ↦
        ap (λ x. and_then x g) (and_then-false r f e)
        ∙ and_then-false r g e
        ∙ sym (and_then-false r (λ h. and_then (f h) g) e)
    | inl e ↦
        ap (λ x. and_then x g) (and_then-true r f e)
        ∙ and_then-behind r.written (f r.state) g
        ∙ sym (and_then-true r (λ h. and_then (f h) g) e)
  ]

module _ {H : Type 0} (parse : String → Parsed) (handler : Request → H → H × Answer)
    (timeout : ℕ) where
  process_lines-append :
      (xs ys : List String) (h : H)
      → process_lines parse handler timeout (xs ++ ys) h
        ≡ and_then
            (process_lines parse handler timeout xs h)
            (process_lines parse handler timeout ys)
  unfolding process_lines run_of and_then
  process_lines-append [] ys h = refl
  process_lines-append (x ∷ xs) ys h =
      let one = take_line parse handler timeout x h in
      let first = process_lines parse handler timeout xs in
      let second = process_lines parse handler timeout ys in
      ap (and_then one) (λ i h'. process_lines-append xs ys h' i)
      ∙ sym (and_then_assoc one first second)

  -- Two chunks or their texts in one: no difference.
  listen_from-merge :
      (buffer x y : String) (chunks : List String) (h : H)
      → listen_from parse handler timeout buffer (x ∷ y ∷ chunks) h
        ≡ listen_from parse handler timeout buffer (str_append x y ∷ chunks) h
  unfolding listen_from
  listen_from-merge buffer x y chunks h =
      let a = take_lines (str_append buffer x) in
      let b = take_lines (str_append a.1 y) in
      let process = process_lines parse handler timeout in
      let rest = listen_from parse handler timeout b.1 chunks in
      let joined : take_lines (str_append buffer (str_append x y)) ≡ ((a.0 ++ b.0), b.1) =
        ap take_lines (sym (text_assoc buffer x y)) ∙ take_lines-append (str_append buffer x) y in
      sym (and_then_assoc (process a.0 h) (process b.0) rest)
      ∙ ap (λ r. and_then r rest) (sym (process_lines-append a.0 b.0 h))
      ∙ ap (λ p. and_then (process p.0 h) (listen_from parse handler timeout p.1 chunks))
          (sym joined)

  listen_from-join :
      (buffer x : String) (chunks : List String) (h : H)
      → listen_from parse handler timeout buffer (x ∷ chunks) h
        ≡ listen_from parse handler timeout buffer (str_append x (concat chunks) ∷ []) h
  listen_from-join buffer x [] h =
      ap (λ s. listen_from parse handler timeout buffer (s ∷ []) h) (sym (append-nil x))
  listen_from-join buffer x (y ∷ chunks) h =
      listen_from-merge buffer x y chunks h
      ∙ listen_from-join buffer (str_append x y) chunks h
      ∙ ap (λ s. listen_from parse handler timeout buffer (s ∷ []) h)
          (text_assoc x y (concat chunks))

  -- `listen` does on the chunks of a text, however it is cut, what it does on the text in one chunk.
  pub listen-concat :
      (x : String) (chunks : List String) (h : H)
      → listen parse handler timeout (x ∷ chunks) h
        ≡ listen parse handler timeout (str_append x (concat chunks) ∷ []) h
  unfolding listen
  listen-concat x chunks h = listen_from-join "" x chunks h
