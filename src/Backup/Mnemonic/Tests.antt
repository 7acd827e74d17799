-- ===== src/Backup/Mnemonic/Tests.antt =====
-- Runs of the mnemonic, and the witnesses of its theorems. The hash gives the first four bits
-- that SHA-256 gives for the bytes of the test.
use pdatahub.Backup.Mnemonic.{
  Runtime, entropy_to_mnemonic, mnemonic_to_entropy, entropy_of, check_sum, words_of, join_words,
  split_words, split_spaces, all_bits, bits, numbers, number, shift_right, hash_bits, word_at,
  word_index, index_from, indices, is_expected, is_supported,
}
use pdatahub.Backup.Mnemonic.RoundTrip.{AreBytes, mnemonic_to_entropy-entropy_to_mnemonic}
use pdatahub.Backup.Mnemonic.Accepted.{entropy_to_mnemonic-mnemonic_to_entropy}
use pdatahub.Backup.Mnemonic.Sizes.{IsSize}
use pdatahub.RateLimit.Route.{trim, is_space, trim_start, trim_end}
use pdatahub.Backup.Words.{
  wordlist, words_1, words_2, words_3, words_4, words_5, words_6, words_7, words_8, words_9,
  words_10, words_11, words_12, words_13, words_14,
}
use pdatahub.Prelude.{String, [], zero, suc, ℕ, ◌∷◌, List, refl, ok, err, ◌≡◌, arith, length, ◌*◌}

abbrev repeat : ℕ → ℕ → List ℕ
repeat zero b = []
repeat (suc k) b = b ∷ repeat k b

abbrev runtime : Runtime
runtime = record { sha256 = λ bs. repeat 32 128; to_lower_case = λ s. s }

abbrev sixteen : List ℕ
sixteen = repeat 16 127

abbrev phrase : String
phrase = "legal winner thank year wave sausage worth useful legal winner thank yellow"

-- A test vector of BIP-39.
phrase_written : entropy_to_mnemonic runtime sixteen ≡ ok phrase
unfolding entropy_to_mnemonic mnemonic_to_entropy entropy_of check_sum words_of join_words
    split_words split_spaces all_bits bits numbers number shift_right hash_bits word_at word_index
    index_from indices is_expected is_supported trim is_space trim_start trim_end wordlist words_1
    words_2 words_3 words_4 words_5 words_6 words_7 words_8 words_9 words_10 words_11 words_12
    words_13 words_14
phrase_written = refl

phrase_read : mnemonic_to_entropy runtime phrase ≡ ok sixteen
unfolding entropy_to_mnemonic mnemonic_to_entropy entropy_of check_sum words_of join_words
    split_words split_spaces all_bits bits numbers number shift_right hash_bits word_at word_index
    index_from indices is_expected is_supported trim is_space trim_start trim_end wordlist words_1
    words_2 words_3 words_4 words_5 words_6 words_7 words_8 words_9 words_10 words_11 words_12
    words_13 words_14
phrase_read = refl

wrong_sum :
    mnemonic_to_entropy runtime
      "legal winner thank year wave sausage worth useful legal winner thank yard"
    ≡ err "invalid mnemonic checksum"
unfolding entropy_to_mnemonic mnemonic_to_entropy entropy_of check_sum words_of join_words
    split_words split_spaces all_bits bits numbers number shift_right hash_bits word_at word_index
    index_from indices is_expected is_supported trim is_space trim_start trim_end wordlist words_1
    words_2 words_3 words_4 words_5 words_6 words_7 words_8 words_9 words_10 words_11 words_12
    words_13 words_14
wrong_sum = refl

spaces_read : mnemonic_to_entropy runtime "  zoo \t zoo" ≡ err "invalid mnemonic word count"
unfolding entropy_to_mnemonic mnemonic_to_entropy entropy_of check_sum words_of join_words
    split_words split_spaces all_bits bits numbers number shift_right hash_bits word_at word_index
    index_from indices is_expected is_supported trim is_space trim_start trim_end wordlist words_1
    words_2 words_3 words_4 words_5 words_6 words_7 words_8 words_9 words_10 words_11 words_12
    words_13 words_14
spaces_read = refl

unknown_word :
    mnemonic_to_entropy runtime
      "a winner thank year wave sausage worth useful legal winner thank yellow"
    ≡ err "unknown word in mnemonic"
unfolding entropy_to_mnemonic mnemonic_to_entropy entropy_of check_sum words_of join_words
    split_words split_spaces all_bits bits numbers number shift_right hash_bits word_at word_index
    index_from indices is_expected is_supported trim is_space trim_start trim_end wordlist words_1
    words_2 words_3 words_4 words_5 words_6 words_7 words_8 words_9 words_10 words_11 words_12
    words_13 words_14
unknown_word = refl

mnemonic_to_entropy-entropy_to_mnemonic_example :
    (m : String) × (entropy_to_mnemonic runtime sixteen ≡ ok m)
    × (mnemonic_to_entropy runtime m ≡ ok sixteen)
mnemonic_to_entropy-entropy_to_mnemonic_example =
    mnemonic_to_entropy-entropy_to_mnemonic runtime 4 sixteen (λ s h. refl)
      (omega arith, omega arith) refl
      (
        omega arith,
        (
          omega arith,
          (
            omega arith,
            (
              omega arith,
              (
                omega arith,
                (
                  omega arith,
                  (
                    omega arith,
                    (
                      omega arith,
                      (
                        omega arith,
                        (
                          omega arith,
                          (
                            omega arith,
                            (
                              omega arith,
                              (omega arith, (omega arith, (omega arith, (omega arith, tt)))),
                            ),
                          ),
                        ),
                      ),
                    ),
                  ),
                ),
              ),
            ),
          ),
        ),
      )

entropy_to_mnemonic-mnemonic_to_entropy_example :
    (entropy_to_mnemonic runtime sixteen ≡ ok (join_words (split_words (trim phrase))))
    × ((k : ℕ) × IsSize k × (length sixteen ≡ 4 * k))
    × AreBytes sixteen
entropy_to_mnemonic-mnemonic_to_entropy_example =
    entropy_to_mnemonic-mnemonic_to_entropy runtime phrase sixteen phrase_read
