-- ===== src/Backup/Mnemonic.antt =====
-- packages/hub-core/src/backup/mnemonic.ts: entropy as a phrase of words, and back. A byte, a bit and the index
-- of a word are numbers.
pub mod Bits
pub mod Indices
pub mod Split
pub mod Sizes
pub mod RoundTrip
pub mod Accepted
mod Tests
use pdatahub.Prelude.{
  String, [], none, some, true, false, zero, suc, ok, err, List, ℕ, Option, Bool, Result, refl, ◌/◌,
  ◌%◌, ◌∷◌, take, ◌==◌, length, if◌then◌else◌, ◌*◌, ◌+◌, ◌++◌, drop, str_append, ◌||◌, str_eq, ◌-◌,
  map, get_elem?,
}
use pdatahub.Backup.Words.{wordlist}
use Prim.Native.Char.{code}
use pdatahub.RateLimit.Route.{is_space, trim}

-- `createHash('sha256')` and `toLowerCase`.
pub record Runtime : Type 0 where
  pub sha256 : List ℕ → List ℕ
  pub to_lower_case : String → String

-- `n >> k`
unfoldable pub shift_right : ℕ → ℕ → ℕ
shift_right n zero = n
shift_right n (suc k) = shift_right (n / 2) k

-- The lowest `k` bits, the highest of them first: `(n >> bit) & 1` for `bit` from `k - 1` to 0.
unfoldable pub bits : ℕ → ℕ → List ℕ
bits zero n = []
bits (suc k) n = shift_right n k % 2 ∷ bits k n

-- `acc = (acc << 1) | bit` for each bit.
unfoldable pub number : ℕ → List ℕ → ℕ
number acc [] = acc
number acc (b ∷ bs) = number (acc * 2 + b) bs

-- The bits of all the numbers, `w` of each.
unfoldable pub all_bits : ℕ → List ℕ → List ℕ
all_bits w [] = []
all_bits w (n ∷ ns) = bits w n ++ all_bits w ns

-- The numbers of the first `k` groups of `w` bits.
unfoldable pub numbers : ℕ → ℕ → List ℕ → List ℕ
numbers zero w bs = []
numbers (suc k) w bs = number 0 (take w bs) ∷ numbers k w (drop w bs)

-- Bits of the hash, from the bit `i` on; a byte behind the end counts as 0.
unfoldable pub hash_bits : List ℕ → ℕ → ℕ → List ℕ
hash_bits hash i zero = []
hash_bits hash i (suc n) =
    shift_right (elim (get_elem? (i / 8) hash) [ none ↦ 0 | some b ↦ b ]) (7 - i % 8) % 2
    ∷ hash_bits hash (suc i) n

-- `BIP39_WORDLIST_ENGLISH[idx]`, which `join` writes as an empty text when it is undefined.
unfoldable pub word_at : ℕ → String
word_at i = elim (get_elem? i wordlist) [ none ↦ "" | some w ↦ w ]

-- `words.join(' ')`
unfoldable pub join_words : List String → String
join_words [] = ""
join_words (w ∷ []) = w
join_words (w ∷ v ∷ ws) = str_append w (str_append " " (join_words (v ∷ ws)))

unfoldable pub is_supported : ℕ → Bool
is_supported ent = ent == 128 || ent == 160 || ent == 192 || ent == 224 || ent == 256

-- The words of entropy of a supported size.
unfoldable pub words_of : Runtime → List ℕ → List String
words_of p entropy =
    let ent = length entropy * 8 in
    let cs_bits = ent / 32 in
    let stream = all_bits 8 entropy ++ hash_bits (p.sha256 entropy) 0 cs_bits in
    map word_at (numbers ((ent + cs_bits) / 11) 11 stream)

-- `entropyToMnemonic`
unfoldable pub entropy_to_mnemonic : Runtime → List ℕ → Result String
entropy_to_mnemonic p entropy =
    if is_supported (length entropy * 8)
    then ok (join_words (words_of p entropy))
    else err "invalid entropy size"

-- `generateMnemonic`, with `randomBytes`.
unfoldable pub generate_mnemonic : Runtime → (ℕ → List ℕ) → ℕ → Result String
generate_mnemonic p random_bytes entropy_bits =
    entropy_to_mnemonic p (random_bytes (entropy_bits / 8))

-- `WORD_INDEX.get(word)`: of equal words the last one was set.
unfoldable pub index_from : ℕ → List String → String → Option ℕ
index_from i [] word = none
index_from i (w ∷ ws) word =
    let later = index_from (suc i) ws word in
    elim later [ some j ↦ some j | none ↦ if str_eq w word then some i else none ]

unfoldable pub word_index : String → Option ℕ
word_index word = index_from 0 wordlist word

-- The indices of the words, or an error at the first word that is unknown.
unfoldable pub indices : List String → Result (List ℕ)
indices [] = ok []
indices (w ∷ ws) = elim (word_index w) [
  | none ↦ err "unknown word in mnemonic"
  | some i ↦ elim (indices ws) [ err e ↦ err e | ok is ↦ ok (i ∷ is) ]
]

-- `s.split(/\s+/)`: the text before the first white space, and the texts behind. The first argument says that
-- white space stands in front.
unfoldable pub split_spaces : Bool → String → String × List String
split_spaces behind String.[] = ("", [])
split_spaces behind (String.◌∷◌ c s) = elim (is_space (code c)) [
  | false ↦ (String.◌∷◌ c (split_spaces false s).0, (split_spaces false s).1)
  | true ↦ elim behind [
    | true ↦ split_spaces true s
    | false ↦ ("", (split_spaces true s).0 ∷ (split_spaces true s).1)
  ]
]

unfoldable pub split_words : String → List String
split_words s = (split_spaces false s).0 ∷ (split_spaces false s).1

unfoldable pub is_expected : ℕ → Bool
is_expected n = n == 12 || n == 15 || n == 18 || n == 21 || n == 24

-- The bytes and the test of the checksum, for the number of words and their indices.
unfoldable pub check_sum : Runtime → ℕ → List ℕ → Result (List ℕ)
check_sum p n is =
    let ent_bits = (n * 11 * 32) / 33 in
    let cs_bits = n * 11 - ent_bits in
    let stream = all_bits 11 is in
    let entropy = numbers (ent_bits / 8) 8 stream in
    if number 0 (take cs_bits (drop ent_bits stream))
      == number 0 (hash_bits (p.sha256 entropy) 0 cs_bits)
    then ok entropy
    else err "invalid mnemonic checksum"

unfoldable pub entropy_of : Runtime → List String → Result (List ℕ)
entropy_of p words =
    if is_expected (length words)
    then elim (indices words) [ err e ↦ err e | ok is ↦ check_sum p (length words) is ]
    else err "invalid mnemonic word count"

-- `mnemonicToEntropy`
unfoldable pub mnemonic_to_entropy : Runtime → String → Result (List ℕ)
mnemonic_to_entropy p mnemonic = entropy_of p (split_words (p.to_lower_case (trim mnemonic)))

-- `validateMnemonic`
unfoldable pub validate_mnemonic : Runtime → String → Bool
validate_mnemonic p mnemonic = elim (mnemonic_to_entropy p mnemonic) [ ok e ↦ true | err e ↦ false ]
