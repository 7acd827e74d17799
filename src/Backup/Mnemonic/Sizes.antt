-- ===== src/Backup/Mnemonic/Sizes.antt =====
-- The sizes of the mnemonic: `4 * k` bytes are `3 * k` words and `k` bits of the checksum, for `k` from 4 to 8.
use pdatahub.Prelude.{
  String, [], true, suc, refl, ok, ℕ, List, ◌≤◌, ◌≡◌, ◌*◌, All, map, length, ◌++◌, arith, ◌/◌, ◌<◌,
  ◌∷◌, length-append, ap, ◌+◌, ◌∙◌, inl, inr, subst, Option-cases, Result-cases, ap₂,
}
use pdatahub.Backup.Words.{all_words}
use pdatahub.Backup.Mnemonic.{
  Runtime, is_supported, is_expected, all_bits, numbers, hash_bits, word_at, word_index, indices,
  words_of, shift_right,
}
use pdatahub.Backup.Mnemonic.Bits.{
  IsBits, all_bits-IsBits, hash_bits-IsBits, length-all_bits, length-hash_bits, Fits-index,
  index-Fits, IsBits-append,
}
use pdatahub.Backup.Mnemonic.Indices.{word_index-word_at, word_at-IsWord, word_at-word_index}

abbrev pub IsSize : ℕ → Type 0
IsSize k = (4 ≤ k) × (k ≤ 8)

pub supported : (k n : ℕ) → IsSize k → n ≡ 4 * k → is_supported (n * 8) ≡ true
unfolding is_supported
supported k n (a, b) h = ground arith

pub expected : (k n : ℕ) → IsSize k → n ≡ 3 * k → is_expected n ≡ true
unfolding is_expected
expected k n (a, b) h = ground arith

pub IsSize-of_expected : (n : ℕ) → is_expected n ≡ true → (k : ℕ) × IsSize k × (n ≡ 3 * k)
unfolding is_expected
IsSize-of_expected n h = (n / 3, (ground arith, ground arith), ground arith)

-- Indices of the list.
abbrev pub AreIndices : List ℕ → Type 0
AreIndices is = All (λ i. i < 2048) is

pub Fit-Indices : (is : List ℕ) → All (λ i. shift_right i 11 ≡ 0) is → AreIndices is
Fit-Indices [] a = tt
Fit-Indices (i ∷ is) (h, a) = (Fits-index i h, Fit-Indices is a)

pub Indices-Fit : (is : List ℕ) → AreIndices is → All (λ i. shift_right i 11 ≡ 0) is
Indices-Fit [] a = tt
Indices-Fit (i ∷ is) (h, a) = (index-Fits i h, Indices-Fit is a)

pub indices-words : (is : List ℕ) → AreIndices is → indices (map word_at is) ≡ ok is
unfolding indices
indices-words [] a = refl
indices-words (i ∷ is) (h, a) = rw (word_index-word_at i h, indices-words is a, indices) refl

abbrev pub AreOf : List String → List ℕ → Type 0
AreOf ws is = (map word_at is ≡ ws) × AreIndices is × (length is ≡ length ws)

pub words-indices : (ws : List String) {is : List ℕ} → indices ws ≡ ok is → AreOf ws is
unfolding indices
words-indices [] {is} h = let same : [] ≡ is = cc in subst (AreOf []) same (refl, tt, refl)
words-indices (w ∷ ws) {is} h = elim (Option-cases (word_index w)) [
  | inl e ↦ absurd (ground (arith, e, h))
  | inr (i, e) ↦ elim (Result-cases (indices ws)) [
    | inr (x, f) ↦ absurd (ground (arith, e, f, h))
    | inl (js, f) ↦
        let same : i ∷ js ≡ is = ground (arith, e, f, h) in
        let (first, below) = word_at-word_index w e in
        let (more, all, size) = words-indices ws f in
        subst (AreOf (w ∷ ws)) same (ap₂ (λ x xs. x ∷ xs) first more, (below, all), ap suc size)
  ]
]

pub words-AreWords : (is : List ℕ) → AreIndices is → all_words (map word_at is) ≡ true
unfolding all_words
words-AreWords [] a = refl
words-AreWords (i ∷ is) (h, a) =
    let first = word_at-IsWord i h in let more = words-AreWords is a in rw (first, more) refl

pub length-words : (is : List ℕ) → length (map word_at is) ≡ length is
length-words [] = refl
length-words (i ∷ is) = ap suc (length-words is)

-- The stream of the bits of `4 * k` bytes and of their checksum.
abbrev pub stream_of : Runtime → ℕ → List ℕ → List ℕ
stream_of p k entropy = all_bits 8 entropy ++ hash_bits (p.sha256 entropy) 0 k

pub words_of-size :
    (p : Runtime) (k : ℕ) (entropy : List ℕ)
    → length entropy ≡ 4 * k
    → words_of p entropy ≡ map word_at (numbers (3 * k) 11 (stream_of p k entropy))
unfolding words_of
words_of-size p k entropy h =
    let cs : (length entropy * 8) / 32 ≡ k = omega arith in
    let count : (length entropy * 8 + k) / 11 ≡ 3 * k = omega arith in rw (cs, count) refl

pub length-stream_of :
    (p : Runtime) (k : ℕ) (entropy : List ℕ)
    → length entropy ≡ 4 * k
    → length (stream_of p k entropy) ≡ 3 * k * 11
length-stream_of p k entropy h =
    length-append (all_bits 8 entropy) (hash_bits (p.sha256 entropy) 0 k)
    ∙ omega (arith, length-all_bits 8 entropy, length-hash_bits (p.sha256 entropy) 0 k)

pub stream_of-IsBits : (p : Runtime) (k : ℕ) (entropy : List ℕ) → IsBits (stream_of p k entropy)
stream_of-IsBits p k entropy =
    IsBits-append (all_bits 8 entropy) (hash_bits (p.sha256 entropy) 0 k)
      (all_bits-IsBits 8 entropy) (hash_bits-IsBits (p.sha256 entropy) 0 k)
