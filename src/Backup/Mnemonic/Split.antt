-- ===== src/Backup/Mnemonic/Split.antt =====
-- Splitting a phrase into its words.
use text.Mathlib.TextLemmas.{append-nil, cons≢nil, cons-append, nil-append}
use pdatahub.Prelude.{
  String, true, false, ℕ, ◌≡◌, leb, str_append, arith, refl, str_eq, ◌∷◌, Bool, ◌∙◌, sym, [], inl,
  inr, Bool-cases, List, ◌==◌, eq_iff, subst, ap, ◌||◌, ◌&&◌,
}
use pdatahub.RateLimit.Route.{is_space, trim, trim_start, trim_end}
use pdatahub.Backup.Words.{is_lower, is_word, all_words}
use Prim.Native.Char.{Char}
use pdatahub.Backup.Mnemonic.{join_words, split_spaces, split_words, code}

lower-not_space : (c : ℕ) → leb 97 c ≡ true → leb c 122 ≡ true → is_space c ≡ false
unfolding is_space
lower-not_space c h k = ground arith

split-solid :
    (b : Bool) (c : Char) (s : String)
    → is_space (code c) ≡ false
    → split_spaces b (String.◌∷◌ c s)
      ≡ (String.◌∷◌ c (split_spaces false s).0, (split_spaces false s).1)
unfolding split_spaces
split-solid b c s h = rw (h, split_spaces) refl

-- A word in front of a text goes into the first piece.
split-append :
    (w s : String)
    → is_lower w ≡ true
    → split_spaces false (str_append w s)
      ≡ (str_append w (split_spaces false s).0, (split_spaces false s).1)
unfolding is_lower
split-append String.[] s h = rw (nil-append s, nil-append (split_spaces false s).0) refl
split-append (String.◌∷◌ c w) s h =
    let solid = lower-not_space (code c) (ground arith) (ground arith) in
    let later = split-append w s (ground arith) in
    rw
      (
        cons-append c w s,
        split-solid false c (str_append w s) solid,
        later,
        cons-append c w (split_spaces false s).0,
      )
      refl

-- White space in front makes no difference to a text that begins with a word.
split-behind :
    (w s : String)
    → is_word w ≡ true
    → split_spaces true (str_append w s) ≡ split_spaces false (str_append w s)
unfolding is_word is_lower
split-behind String.[] s h = absurd (ground arith)
split-behind (String.◌∷◌ c w) s h =
    let solid = lower-not_space (code c) (ground arith) (ground arith) in
    rw (cons-append c w s)
      (split-solid true c (str_append w s) solid ∙ sym (split-solid false c (str_append w s) solid))

trim_start-word : (w s : String) → is_word w ≡ true → trim_start (str_append w s) ≡ str_append w s
unfolding is_word is_lower trim_start
trim_start-word String.[] s h = absurd (ground arith)
trim_start-word (String.◌∷◌ c w) s h =
    let solid = lower-not_space (code c) (ground arith) (ground arith) in
    rw (cons-append c w s, solid) refl

trim_end-append :
    (w s : String) → is_lower w ≡ true → trim_end s ≡ s → trim_end (str_append w s) ≡ str_append w s
unfolding is_lower trim_end
trim_end-append String.[] s h e = rw (nil-append s) e
trim_end-append (String.◌∷◌ c w) s h e =
    let solid = lower-not_space (code c) (ground arith) (ground arith) in
    let later = trim_end-append w s (ground arith) e in
    elim (Bool-cases (str_eq (str_append w s) "")) [
      | inl none_left ↦ rw (cons-append c w s, later, solid, none_left) refl
      | inr some_left ↦ rw (cons-append c w s, later, solid, some_left) refl
    ]

trim_end-space :
    (s : String)
    → str_eq s "" ≡ false
    → trim_end s ≡ s
    → trim_end (str_append " " s) ≡ str_append " " s
unfolding trim_end
trim_end-space s h e = rw (cons-append " " "" s, nil-append s) (rw (e, h) refl)

split-space :
    (s : String)
    → split_spaces false (str_append " " s)
      ≡ ("", (split_spaces true s).0 ∷ (split_spaces true s).1)
unfolding split_spaces is_space
split-space s = rw (cons-append " " "" s, nil-append s) refl

trim_end-nil : trim_end "" ≡ ""
unfolding trim_end
trim_end-nil = refl

split-nil : split_spaces false "" ≡ ("", [])
unfolding split_spaces
split-nil = refl

join-front : (w : String) (ws : List String) → (s : String) × (join_words (w ∷ ws) ≡ str_append w s)
unfolding join_words
join-front w [] = ("", sym (append-nil w))
join-front w (v ∷ ws) = (str_append " " (join_words (v ∷ ws)), refl)

word-not_empty : (w s : String) → is_word w ≡ true → str_eq (str_append w s) "" ≡ false
unfolding is_word
word-not_empty String.[] s h = absurd (ground arith)
word-not_empty (String.◌∷◌ c w) s h =
    elim (Bool-cases (str_eq (str_append (String.◌∷◌ c w) s) "")) [
      | inr e ↦ e
      | inl e ↦
          absurd
            (cons≢nil (sym (cons-append c w s) ∙ (eq_iff (str_append (String.◌∷◌ c w) s) "").0 e))
    ]

trim_end-join :
    (w : String) (ws : List String)
    → all_words (w ∷ ws) ≡ true
    → trim_end (join_words (w ∷ ws)) ≡ join_words (w ∷ ws)
unfolding join_words all_words is_word
trim_end-join w [] h =
    subst (λ x. trim_end x ≡ x) (append-nil w) (trim_end-append w "" (ground arith) trim_end-nil)
trim_end-join w (v ∷ ws) h =
    let (s, front) = join-front v ws in
    let more : str_eq (join_words (v ∷ ws)) "" ≡ false =
      subst (λ x. str_eq x "" ≡ false) (sym front) (word-not_empty v s (ground arith)) in
    trim_end-append w (str_append " " (join_words (v ∷ ws))) (ground arith)
      (trim_end-space (join_words (v ∷ ws)) more (trim_end-join v ws (ground arith)))

-- A phrase of words has no white space at its ends.
pub trim-join_words :
    (w : String) (ws : List String)
    → all_words (w ∷ ws) ≡ true
    → trim (join_words (w ∷ ws)) ≡ join_words (w ∷ ws)
unfolding trim all_words
trim-join_words w ws h =
    let (s, front) = join-front w ws in
    let begin : trim_start (join_words (w ∷ ws)) ≡ join_words (w ∷ ws) =
      subst (λ x. trim_start x ≡ x) (sym front) (trim_start-word w s (ground arith)) in
    ap trim_end begin ∙ trim_end-join w ws h

split-join :
    (w : String) (ws : List String)
    → all_words (w ∷ ws) ≡ true
    → split_spaces false (join_words (w ∷ ws)) ≡ (w, ws)
unfolding join_words all_words is_word
split-join w [] h =
    ap (split_spaces false) (sym (append-nil w))
    ∙ split-append w "" (ground arith)
    ∙ rw (split-nil, append-nil w) refl
split-join w (v ∷ ws) h =
    let text = join_words (v ∷ ws) in
    let (s, front) = join-front v ws in
    let behind : split_spaces true text ≡ split_spaces false text =
      subst (λ x. split_spaces true x ≡ split_spaces false x) (sym front)
        (split-behind v s (ground arith)) in
    let later = behind ∙ split-join v ws (ground arith) in
    split-append w (str_append " " text) (ground arith)
    ∙ rw (split-space text, later, append-nil w) refl

-- A phrase of words is split into them.
pub split_words-join_words :
    (w : String) (ws : List String)
    → all_words (w ∷ ws) ≡ true
    → split_words (join_words (w ∷ ws)) ≡ w ∷ ws
unfolding split_words
split_words-join_words w ws h = rw (split-join w ws h) refl

-- The text has lower-case letters and spaces only.
unfoldable pub is_phrase : String → Bool
is_phrase String.[] = true
is_phrase (String.◌∷◌ c s) = (code c == 32 || leb 97 (code c) && leb (code c) 122) && is_phrase s

phrase-append :
    (w s : String) → is_lower w ≡ true → is_phrase s ≡ true → is_phrase (str_append w s) ≡ true
unfolding is_lower is_phrase
phrase-append String.[] s h k = rw (nil-append s) k
phrase-append (String.◌∷◌ c w) s h k =
    let later = phrase-append w s (ground arith) k in rw (cons-append c w s) (ground arith)

pub join_words-IsPhrase :
    (w : String) (ws : List String)
    → all_words (w ∷ ws) ≡ true
    → is_phrase (join_words (w ∷ ws)) ≡ true
unfolding join_words all_words is_word is_phrase
join_words-IsPhrase w [] h =
    subst (λ x. is_phrase x ≡ true) (append-nil w) (phrase-append w "" (ground arith) refl)
join_words-IsPhrase w (v ∷ ws) h =
    let later = join_words-IsPhrase v ws (ground arith) in
    phrase-append w (str_append " " (join_words (v ∷ ws))) (ground arith)
      (rw (cons-append " " "" (join_words (v ∷ ws)), nil-append (join_words (v ∷ ws))) later)
