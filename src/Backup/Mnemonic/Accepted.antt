-- ===== src/Backup/Mnemonic/Accepted.antt =====
-- A phrase that is accepted is the phrase of the entropy that it is read as.
use pdatahub.Prelude.{
  String, [], ok, List, ℕ, All, length, ◌≡◌, ◌*◌, ◌∷◌, ◌/◌, arith, ◌-◌, drop, inl, inr, refl,
  Bool-cases, Result-cases, ◌∙◌, ap, map, take, ap₂, ◌≤◌, sym, length-drop, subst, take-all, ◌++◌,
}
use mathlib.Core.List.{append-nil}
use pdatahub.RateLimit.Route.{trim}
use pdatahub.Backup.Mnemonic.{
  Runtime, entropy_to_mnemonic, mnemonic_to_entropy, entropy_of, check_sum, words_of, join_words,
  split_words, all_bits, numbers, number, hash_bits, word_at, indices, is_expected, shift_right,
}
use pdatahub.Backup.Mnemonic.Bits.{
  numbers-all_bits, all_bits-numbers, all_bits-IsBits, hash_bits-IsBits, IsBits-drop,
  number-injective, length-numbers, length-all_bits, length-hash_bits, numbers-Fit, Fits-byte,
}
use pdatahub.Backup.Mnemonic.Sizes.{
  IsSize, supported, IsSize-of_expected, Indices-Fit, stream_of, words_of-size, words-indices,
}
use pdatahub.Backup.Mnemonic.RoundTrip.{AreBytes}

Fit-Bytes : (bs : List ℕ) → All (λ b. shift_right b 8 ≡ 0) bs → AreBytes bs
Fit-Bytes [] a = tt
Fit-Bytes (b ∷ bs) (h, a) = (Fits-byte b h, Fit-Bytes bs a)

-- What `check_sum` accepts for `3 * k` indices: `4 * k` bytes whose stream is that of the indices.
abbrev Accepts : Runtime → ℕ → List ℕ → List ℕ → Type 0
Accepts p k is entropy =
    (length entropy ≡ 4 * k) × AreBytes entropy × (all_bits 11 is ≡ stream_of p k entropy)

check_sum-Accepts :
    (p : Runtime) (k n : ℕ) (is entropy : List ℕ)
    → n ≡ 3 * k
    → length is ≡ 3 * k
    → check_sum p n is ≡ ok entropy
    → Accepts p k is entropy
unfolding check_sum
check_sum-Accepts p k n is entropy at size h =
    let stream = all_bits 11 is in
    let ent : (n * 11 * 32) / 33 ≡ 32 * k = omega arith in
    let cs : n * 11 - 32 * k ≡ k = omega arith in
    let count : (32 * k) / 8 ≡ 4 * k = omega arith in
    let bytes = numbers (4 * k) 8 stream in
    let tail = drop (32 * k) stream in
    let h' = rw (ent, cs, count) at h in
    let same : bytes ≡ entropy = ground (arith, h') in
    let hash = hash_bits (p.sha256 bytes) 0 k in
    let sums : number 0 (take k tail) ≡ number 0 hash = ground (arith, h') in
    let binary = all_bits-IsBits 11 is in
    let long : length stream ≡ 33 * k = omega (arith, length-all_bits 11 is) in
    let fits : 4 * k * 8 ≤ length stream = omega arith in
    let left : length tail ≡ k = omega (arith, length-drop (32 * k) stream (omega arith)) in
    let whole : take k tail ≡ tail = subst (λ n. take n tail ≡ tail) left (take-all tail) in
    let ends : tail ≡ hash =
      number-injective tail hash (IsBits-drop (32 * k) stream binary)
        (hash_bits-IsBits (p.sha256 bytes) 0 k) (left ∙ sym (length-hash_bits (p.sha256 bytes) 0 k))
        (ap (number 0) (sym whole) ∙ sums) in
    let eight : 4 * k * 8 ≡ 32 * k = omega arith in
    let parts : all_bits 8 bytes ++ tail ≡ stream =
      subst (λ n. all_bits 8 bytes ++ drop n stream ≡ stream) eight
        (all_bits-numbers (4 * k) 8 stream binary fits) in
    subst (Accepts p k is) same (
      length-numbers (4 * k) 8 stream,
      Fit-Bytes bytes (numbers-Fit (4 * k) 8 stream binary fits),
      sym parts ∙ ap (λ ys. all_bits 8 bytes ++ ys) ends,
    )

-- A phrase that is read as entropy has the words that this entropy is written with, whatever its white space
-- and its upper case; the entropy has 16, 20, 24, 28 or 32 bytes.
pub entropy_to_mnemonic-mnemonic_to_entropy :
    (p : Runtime) (m : String) (entropy : List ℕ)
    → mnemonic_to_entropy p m ≡ ok entropy
    → (entropy_to_mnemonic p entropy ≡ ok (join_words (split_words (p.to_lower_case (trim m)))))
      × ((k : ℕ) × IsSize k × (length entropy ≡ 4 * k))
      × AreBytes entropy
unfolding mnemonic_to_entropy entropy_of entropy_to_mnemonic
entropy_to_mnemonic-mnemonic_to_entropy p m entropy h =
    let ws = split_words (p.to_lower_case (trim m)) in
    elim (Bool-cases (is_expected (length ws))) [
      | inr e ↦ absurd (ground (arith, e, h))
      | inl e ↦ elim (Result-cases (indices ws)) [
        | inr (x, f) ↦ absurd (ground (arith, e, f, h))
        | inl (is, f) ↦
            let sum : check_sum p (length ws) is ≡ ok entropy = ground (arith, e, f, h) in
            let (k, s, at) = IsSize-of_expected (length ws) e in
            let (same, below, size) = words-indices ws f in
            let (long, bytes, stream) =
              check_sum-Accepts p k (length ws) is entropy at (size ∙ at) sum in
            let read : numbers (3 * k) 11 (stream_of p k entropy) ≡ is =
              ap₂ (λ n bs. numbers n 11 bs) (sym (size ∙ at))
                (sym stream ∙ sym (append-nil (all_bits 11 is)))
              ∙ numbers-all_bits 11 is [] (Indices-Fit is below) in
            let written : words_of p entropy ≡ ws =
              words_of-size p k entropy long ∙ ap (map word_at) read ∙ same in
            (rw (supported k (length entropy) s long, written) refl, (k, s, long), bytes)
      ]
    ]
