-- ===== src/Backup/Mnemonic/Indices.antt =====
-- Words and their indices: each gives back the other.
use pdatahub.Prelude.{
  String, [], none, some, true, false, inl, inr, zero, suc, refl, ℕ, List, ◌≡◌, ◌≤◌, get_elem?, ◌+◌,
  ◌∷◌, arith, ◌<◌, ap, Option-cases, str_eq, Bool-cases, eq_iff, sym, get_elem?-Found, ◌∙◌,
  get_elem?-length, subst,
}
use pdatahub.Backup.Words.{
  wordlist, wordlist-length, wordlist_ascends, wordlist_words, is_ascending, number_of, is_word,
  all_words,
}
use pdatahub.Backup.Mnemonic.{word_at, index_from, word_index}

-- Behind a greater word an ascending list does not have a word.
index_from-none :
    (i low : ℕ) (ws : List String) (word : String)
    → is_ascending low ws ≡ true
    → number_of word ≤ low
    → index_from i ws word ≡ none
unfolding is_ascending index_from
index_from-none i low [] word a h = refl
index_from-none i low (w ∷ ws) word a h =
    let above : low < number_of w = ground arith in
    let rest : is_ascending (number_of w) ws ≡ true = ground arith in
    let other : str_eq w word ≡ false = elim (Bool-cases (str_eq w word)) [
      | inr e ↦ e
      | inl e ↦ absurd (
          let same : number_of w ≡ number_of word = ap number_of ((eq_iff w word).0 e) in
          omega arith)
    ] in
    let later = index_from-none (suc i) (number_of w) ws word rest (omega arith) in
    rw (later, other) refl

index_from-get :
    (i low k : ℕ) (ws : List String) {word : String}
    → is_ascending low ws ≡ true
    → get_elem? k ws ≡ some word
    → index_from i ws word ≡ some (i + k)
unfolding is_ascending index_from
index_from-get i low k [] a h = absurd (ground (arith, h))
index_from-get i low zero (w ∷ ws) {word} a h =
    let same : w ≡ word = cc in
    let rest : is_ascending (number_of w) ws ≡ true = ground arith in
    let later : index_from (suc i) ws word ≡ none =
      index_from-none (suc i) (number_of w) ws word rest
        (let e : number_of w ≡ number_of word = ap number_of same in omega arith) in
    let at : i + 0 ≡ i = omega arith in
    let hit : str_eq w word ≡ true = (eq_iff w word).1 same in rw (later, hit) (ap some (sym at))
index_from-get i low (suc k) (w ∷ ws) {word} a h =
    let rest : is_ascending (number_of w) ws ≡ true = ground arith in
    let later : index_from (suc i) ws word ≡ some (suc i + k) =
      index_from-get (suc i) (number_of w) k ws rest h in
    let at : suc i + k ≡ i + suc k = omega arith in rw later (ap some at)

get-index_from :
    (i j : ℕ) (ws : List String) (word : String)
    → index_from i ws word ≡ some j
    → (k : ℕ) × (j ≡ i + k) × (get_elem? k ws ≡ some word)
unfolding index_from
get-index_from i j [] word h = absurd (ground (arith, h))
get-index_from i j (w ∷ ws) word h = elim (Option-cases (index_from (suc i) ws word)) [
  | inr (m, e) ↦
      let at : m ≡ j = ground (arith, e, h) in
      let (k, f, g) = get-index_from (suc i) m ws word e in (suc k, omega arith, g)
  | inl e ↦ elim (Bool-cases (str_eq w word)) [
    | inl same ↦
        let at : i ≡ j = ground (arith, e, h) in (0, omega arith, ap some ((eq_iff w word).0 same))
    | inr other ↦ absurd (ground (arith, e, other, h))
  ]
]

-- An index of the list has a word, and the word has the index.
pub word_index-word_at : (i : ℕ) → i < 2048 → word_index (word_at i) ≡ some i
unfolding word_index word_at
word_index-word_at i h =
    let (w, e) = get_elem?-Found i wordlist (rw wordlist-length h) in
    let at : 0 + i ≡ i = omega arith in
    rw (e, word_at) (index_from-get 0 0 i wordlist wordlist_ascends e ∙ ap some at)

-- A word that has an index is the word of the index, and the index is below 2048.
pub word_at-word_index : (w : String) {i : ℕ} → word_index w ≡ some i → (word_at i ≡ w) × (i < 2048)
unfolding word_index word_at
word_at-word_index w {i} h =
    let (k, at, e) = get-index_from 0 i wordlist w h in
    let same : get_elem? i wordlist ≡ some w = ap (λ n. get_elem? n wordlist) (omega arith) ∙ e in
    (rw (same, word_at) refl, subst (λ n. i < n) wordlist-length (get_elem?-length i wordlist same))

get-IsWord :
    (k : ℕ) (ws : List String) {w : String}
    → all_words ws ≡ true
    → get_elem? k ws ≡ some w
    → is_word w ≡ true
unfolding all_words
get-IsWord k [] a h = absurd (ground (arith, h))
get-IsWord zero (v ∷ ws) {w} a h =
    let same : v ≡ w = cc in subst (λ x. is_word x ≡ true) same (ground arith)
get-IsWord (suc k) (v ∷ ws) a h = get-IsWord k ws (ground arith) h

pub word_at-IsWord : (i : ℕ) → i < 2048 → is_word (word_at i) ≡ true
unfolding word_at
word_at-IsWord i h =
    let (w, e) = get_elem?-Found i wordlist (rw wordlist-length h) in
    let same : word_at i ≡ w = rw (e, word_at) refl in
    subst (λ x. is_word x ≡ true) (sym same) (get-IsWord i wordlist wordlist_words e)
