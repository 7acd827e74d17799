-- ===== src/Backup/Mnemonic/RoundTrip.antt =====
-- Entropy that is written as a phrase is read back.

use pdatahub.Prelude.{
  String, [], true, refl, ok, ◌≡◌, List, ℕ, All, ◌<◌, length, arith, ◌*◌, ◌∷◌, ◌/◌, ◌≤◌, ap, ◌-◌,
  map, ◌∙◌, ◌++◌, drop, subst, drop-append, take, take-all,
}
use pdatahub.Backup.Words.{all_words}
use pdatahub.Backup.Mnemonic.{
  Runtime, entropy_to_mnemonic, mnemonic_to_entropy, entropy_of, check_sum, words_of, join_words,
  split_words, all_bits, numbers, hash_bits, word_at, shift_right,
}
use pdatahub.Backup.Mnemonic.Bits.{
  numbers-all_bits, numbers-Fit, length-numbers, length-all_bits, length-hash_bits, byte-Fits,
  all_bits-numbers_all,
}
use pdatahub.Backup.Mnemonic.Sizes.{
  IsSize, supported, expected, stream_of, stream_of-IsBits, length-stream_of, words_of-size,
  Fit-Indices, indices-words, words-AreWords, length-words,
}
use pdatahub.Backup.Mnemonic.Split.{
  is_phrase, trim-join_words, split_words-join_words, join_words-IsPhrase,
}

-- `toLowerCase` changes no text of lower-case letters and spaces.
abbrev pub KeepsPhrases : Runtime → Type 0
KeepsPhrases p = (s : String) → is_phrase s ≡ true → p.to_lower_case s ≡ s

abbrev pub AreBytes : List ℕ → Type 0
AreBytes bs = All (λ b. b < 256) bs

bytes-Fit : (bs : List ℕ) → AreBytes bs → All (λ b. shift_right b 8 ≡ 0) bs
bytes-Fit [] a = tt
bytes-Fit (b ∷ bs) (h, a) = (byte-Fits b h, bytes-Fit bs a)

-- The words of a phrase are what it is read as.
pub mnemonic_to_entropy-join :
    (p : Runtime) (ws : List String)
    → KeepsPhrases p
    → all_words ws ≡ true
    → 0 < length ws
    → mnemonic_to_entropy p (join_words ws) ≡ entropy_of p ws
unfolding mnemonic_to_entropy
mnemonic_to_entropy-join p [] keeps a h = absurd (omega arith)
mnemonic_to_entropy-join p (w ∷ ws) keeps a h =
    ap (λ s. entropy_of p (split_words (p.to_lower_case s))) (trim-join_words w ws a)
    ∙ ap (λ s. entropy_of p (split_words s))
        (keeps (join_words (w ∷ ws)) (join_words-IsPhrase w ws a))
    ∙ ap (entropy_of p) (split_words-join_words w ws a)

-- The checksum of the stream of `entropy` is right.
check_sum-stream :
    (p : Runtime) (k : ℕ) (entropy is : List ℕ)
    → length entropy ≡ 4 * k
    → AreBytes entropy
    → all_bits 11 is ≡ stream_of p k entropy
    → check_sum p (3 * k) is ≡ ok entropy
unfolding check_sum
check_sum-stream p k entropy is h bytes e =
    let hash = hash_bits (p.sha256 entropy) 0 k in
    let body = all_bits 8 entropy in
    let ent : (3 * k * 11 * 32) / 33 ≡ 32 * k = omega arith in
    let cs : 3 * k * 11 - 32 * k ≡ k = omega arith in
    let count : (32 * k) / 8 ≡ length entropy = omega (arith, h) in
    let size : length body ≡ 32 * k = omega (arith, length-all_bits 8 entropy) in
    let read : numbers (length entropy) 8 (body ++ hash) ≡ entropy =
      numbers-all_bits 8 entropy hash (bytes-Fit entropy bytes) in
    let rest : drop (32 * k) (body ++ hash) ≡ hash =
      subst (λ n. drop n (body ++ hash) ≡ hash) size (drop-append body hash) in
    let whole : take k hash ≡ hash =
      subst (λ n. take n hash ≡ hash) (length-hash_bits (p.sha256 entropy) 0 k) (take-all hash) in
    rw (ent, cs, count, e, read, rest, whole) (ground arith)

-- For 16, 20, 24, 28 or 32 bytes there is a phrase, and it is read as the same bytes.
pub mnemonic_to_entropy-entropy_to_mnemonic :
    (p : Runtime) (k : ℕ) (entropy : List ℕ)
    → KeepsPhrases p
    → IsSize k
    → length entropy ≡ 4 * k
    → AreBytes entropy
    → (m : String) × (entropy_to_mnemonic p entropy ≡ ok m) × (mnemonic_to_entropy p m ≡ ok entropy)
unfolding entropy_to_mnemonic entropy_of
mnemonic_to_entropy-entropy_to_mnemonic p k entropy keeps s h bytes =
    let stream = stream_of p k entropy in
    let long : 3 * k * 11 ≤ length stream = omega (arith, length-stream_of p k entropy h) in
    let binary = stream_of-IsBits p k entropy in
    let is = numbers (3 * k) 11 stream in
    let below = Fit-Indices is (numbers-Fit (3 * k) 11 stream binary long) in
    let ws = map word_at is in
    let size : length ws ≡ 3 * k = length-words is ∙ length-numbers (3 * k) 11 stream in
    let same : words_of p entropy ≡ ws = words_of-size p k entropy h in
    let back : all_bits 11 is ≡ stream =
      all_bits-numbers_all (3 * k) 11 stream binary (length-stream_of p k entropy h) in
    (
      join_words ws,
      rw (supported k (length entropy) s h, same) refl,
      mnemonic_to_entropy-join p ws keeps (words-AreWords is below)
            (let (low, high) = s in omega arith)
          ∙ rw (expected k (length ws) s size, indices-words is below, size)
              (check_sum-stream p k entropy is h bytes back),
    )
