-- ===== src/Backup/Words.antt =====
-- The word list of packages/hub-core/src/backup/wordlist.ts: 2048 words, ascending, of lower-case letters.
mod First
mod Second
use Prim.Native.Char.{code}
use pdatahub.Prelude.{
  String, List, [], ◌∷◌, true, zero, suc, refl, ◌++◌, ℕ, Bool, length, ◌≡◌, ◌*◌, leb, not, ltb, ◌+◌,
  ◌&&◌, str_eq,
}
unfoldable pub use First.{words_1, words_2, words_3, words_4, words_5, words_6, words_7}
unfoldable pub use Second.{words_8, words_9, words_10, words_11, words_12, words_13, words_14}

-- `BIP39_WORDLIST_ENGLISH`
unfoldable pub wordlist : List String
wordlist =
    words_1
    ++ (words_2
        ++ (words_3
            ++ (words_4
                ++ (words_5
                    ++ (words_6
                        ++ (words_7
                            ++ (words_8
                                ++ (words_9
                                    ++ (words_10
                                        ++ (words_11
                                            ++ (words_12 ++ (words_13 ++ words_14))))))))))))

-- The letters of a word as a number, whose order is that of the words.
letters : ℕ → ℕ → String → ℕ
letters zero acc s = acc
letters (suc k) acc String.[] = letters k (acc * 128) String.[]
letters (suc k) acc (String.◌∷◌ c s) = letters k (acc * 128 + code c) s

pub number_of : String → ℕ
unfolding letters
number_of s = letters 8 0 s

unfoldable pub is_lower : String → Bool
is_lower String.[] = true
is_lower (String.◌∷◌ c s) = leb 97 (code c) && (leb (code c) 122 && is_lower s)

unfoldable pub is_word : String → Bool
unfolding is_lower
is_word s = not (str_eq s "") && is_lower s

unfoldable pub is_ascending : ℕ → List String → Bool
unfolding number_of
is_ascending low [] = true
is_ascending low (w ∷ ws) = ltb low (number_of w) && is_ascending (number_of w) ws

pub wordlist-length : length wordlist ≡ 2048
unfolding wordlist words_1 words_2 words_3 words_4 words_5 words_6 words_7 words_8 words_9 words_10
    words_11 words_12 words_13 words_14
wordlist-length = refl

pub wordlist_ascends : is_ascending 0 wordlist ≡ true
unfolding is_ascending wordlist words_1 words_2 words_3 words_4 words_5 words_6 words_7 words_8
    words_9 words_10 words_11 words_12 words_13 words_14
wordlist_ascends = refl

unfoldable pub all_words : List String → Bool
unfolding is_word
all_words [] = true
all_words (w ∷ ws) = is_word w && all_words ws

pub wordlist_words : all_words wordlist ≡ true
unfolding all_words wordlist words_1 words_2 words_3 words_4 words_5 words_6 words_7 words_8 words_9
    words_10 words_11 words_12 words_13 words_14
wordlist_words = refl
