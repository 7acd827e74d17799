-- ===== src/Backup/Mnemonic/Bits.antt =====
-- Bits and numbers of the mnemonic: each gives back the other.
use mathlib.Core.List.{append-nil, append_assoc}
use pdatahub.Prelude.{
  [], zero, suc, refl, List, ℕ, All, length, ◌≡◌, ◌++◌, ◌<◌, ap, ◌/◌, ◌∷◌, ◌+◌, ◌%◌, ◌*◌, arith,
  sym, ◌∙◌, length-append, take, drop, ◌≤◌, ap₂, subst, length-take, take-append, length-drop,
  drop-append, take-drop, drop_add, drop-all,
}
use pdatahub.Backup.Mnemonic.{shift_right, bits, number, all_bits, numbers, hash_bits}

abbrev pub IsBits : List ℕ → Type 0
IsBits bs = All (λ b. b < 2) bs

pub length-bits : (k n : ℕ) → length (bits k n) ≡ k
unfolding bits
length-bits zero n = refl
length-bits (suc k) n = ap suc (length-bits k n)

bits_snoc : (k n : ℕ) → bits (suc k) n ≡ bits k (n / 2) ++ (n % 2 ∷ [])
unfolding bits shift_right
bits_snoc zero n = refl
bits_snoc (suc k) n = ap (λ bs. shift_right (n / 2) k % 2 ∷ bs) (bits_snoc k n)

number_snoc : (acc : ℕ) (bs : List ℕ) (b : ℕ) → number acc (bs ++ (b ∷ [])) ≡ number acc bs * 2 + b
unfolding number
number_snoc acc [] b = refl
number_snoc acc (c ∷ bs) b = number_snoc (acc * 2 + c) bs b

-- A number that has no more bits is read back.
pub number-bits : (k n : ℕ) → shift_right n k ≡ 0 → number 0 (bits k n) ≡ n
unfolding bits number shift_right
number-bits zero n h = sym h
number-bits (suc k) n h =
    let half = number-bits k (n / 2) h in
    ap (number 0) (bits_snoc k n) ∙ number_snoc 0 (bits k (n / 2)) (n % 2) ∙ omega (arith, half)

bits-number_from :
    (k acc : ℕ) (xs bs : List ℕ)
    → IsBits bs
    → bits k acc ≡ xs
    → bits (length bs + k) (number acc bs) ≡ xs ++ bs
unfolding number
bits-number_from k acc xs [] a h =
    let size : 0 + k ≡ k = omega arith in ap (λ n. bits n acc) size ∙ h ∙ sym (append-nil xs)
bits-number_from k acc xs (b ∷ bs) (b2, a) h =
    let half : (acc * 2 + b) / 2 ≡ acc = omega arith in
    let last : (acc * 2 + b) % 2 ≡ b = omega arith in
    let next : bits (suc k) (acc * 2 + b) ≡ xs ++ (b ∷ []) =
      bits_snoc k (acc * 2 + b)
      ∙ ap₂ (λ m c. bits k m ++ (c ∷ [])) half last
      ∙ ap (λ ys. ys ++ (b ∷ [])) h in
    let size : suc (length bs) + k ≡ length bs + suc k = omega arith in
    ap (λ n. bits n (number (acc * 2 + b) bs)) size
    ∙ bits-number_from (suc k) (acc * 2 + b) (xs ++ (b ∷ [])) bs a next
    ∙ append_assoc xs (b ∷ []) bs

-- Bits are read back from their number.
pub bits-number : (bs : List ℕ) → IsBits bs → bits (length bs) (number 0 bs) ≡ bs
unfolding bits
bits-number bs a =
    let size : length bs ≡ length bs + 0 = omega arith in
    ap (λ n. bits n (number 0 bs)) size ∙ bits-number_from 0 0 [] bs a refl

pub length-all_bits : (w : ℕ) (ns : List ℕ) → length (all_bits w ns) ≡ length ns * w
unfolding all_bits
length-all_bits w [] = omega arith
length-all_bits w (n ∷ ns) =
    length-append (bits w n) (all_bits w ns) ∙ omega (arith, length-bits w n, length-all_bits w ns)

pub IsBits-append : (xs ys : List ℕ) → IsBits xs → IsBits ys → IsBits (xs ++ ys)
IsBits-append [] ys a b = b
IsBits-append (x ∷ xs) ys (a, more) b = (a, IsBits-append xs ys more b)

bits-IsBits : (k n : ℕ) → IsBits (bits k n)
unfolding bits
bits-IsBits zero n = tt
bits-IsBits (suc k) n = (omega arith, bits-IsBits k n)

pub all_bits-IsBits : (w : ℕ) (ns : List ℕ) → IsBits (all_bits w ns)
unfolding all_bits
all_bits-IsBits w [] = tt
all_bits-IsBits w (n ∷ ns) =
    IsBits-append (bits w n) (all_bits w ns) (bits-IsBits w n) (all_bits-IsBits w ns)

pub hash_bits-IsBits : (hash : List ℕ) (i n : ℕ) → IsBits (hash_bits hash i n)
unfolding hash_bits
hash_bits-IsBits hash i zero = tt
hash_bits-IsBits hash i (suc n) = (omega arith, hash_bits-IsBits hash (suc i) n)

pub length-hash_bits : (hash : List ℕ) (i n : ℕ) → length (hash_bits hash i n) ≡ n
unfolding hash_bits
length-hash_bits hash i zero = refl
length-hash_bits hash i (suc n) = ap suc (length-hash_bits hash (suc i) n)

-- Numbers of at most `w` bits are read back from the stream of their bits, whatever follows.
pub numbers-all_bits :
    (w : ℕ) (ns rest : List ℕ)
    → All (λ n. shift_right n w ≡ 0) ns
    → numbers (length ns) w (all_bits w ns ++ rest) ≡ ns
unfolding numbers all_bits
numbers-all_bits w [] rest a = refl
numbers-all_bits w (n ∷ ns) rest (h, a) =
    let first = bits w n in
    let later = all_bits w ns ++ rest in
    let size = length-bits w n in
    let split = append_assoc first (all_bits w ns) rest in
    let head : take w ((first ++ all_bits w ns) ++ rest) ≡ first =
      ap (take w) split
      ∙ subst (λ k. take k (first ++ later) ≡ first) size (take-append first later) in
    let tail : drop w ((first ++ all_bits w ns) ++ rest) ≡ later =
      ap (drop w) split
      ∙ subst (λ k. drop k (first ++ later) ≡ later) size (drop-append first later) in
    ap₂ (λ x xs. x ∷ xs) (ap (number 0) head ∙ number-bits w n h)
      (ap (numbers (length ns) w) tail ∙ numbers-all_bits w ns rest a)

IsBits-take : (n : ℕ) (xs : List ℕ) → IsBits xs → IsBits (take n xs)
IsBits-take zero xs a = tt
IsBits-take (suc n) [] a = tt
IsBits-take (suc n) (x ∷ xs) (h, a) = (h, IsBits-take n xs a)

pub IsBits-drop : (n : ℕ) (xs : List ℕ) → IsBits xs → IsBits (drop n xs)
IsBits-drop zero xs a = a
IsBits-drop (suc n) [] a = tt
IsBits-drop (suc n) (x ∷ xs) (h, a) = IsBits-drop n xs a

-- A stream is the bits of the numbers that are read from it, and what stands behind them.
pub all_bits-numbers :
    (k w : ℕ) (bs : List ℕ)
    → IsBits bs
    → k * w ≤ length bs
    → all_bits w (numbers k w bs) ++ drop (k * w) bs ≡ bs
unfolding numbers all_bits
all_bits-numbers zero w bs a h =
    let none_read : 0 * w ≡ 0 = omega arith in ap (λ n. drop n bs) none_read
all_bits-numbers (suc k) w bs a h =
    let fits : w ≤ length bs = omega arith in
    let size = length-take w bs fits in
    let head : bits w (number 0 (take w bs)) ≡ take w bs =
      subst (λ n. bits n (number 0 (take w bs)) ≡ take w bs) size
        (bits-number (take w bs) (IsBits-take w bs a)) in
    let rest = drop w bs in
    let tail =
      all_bits-numbers k w rest (IsBits-drop w bs a) (omega (arith, length-drop w bs fits)) in
    let later = all_bits w (numbers k w rest) in
    let more : suc k * w ≡ w + k * w = omega arith in
    let end : drop (suc k * w) bs ≡ drop (k * w) rest =
      ap (λ n. drop n bs) more ∙ drop_add w (k * w) bs in
    ap₂ (λ xs ys. (xs ++ later) ++ ys) head end
    ∙ append_assoc (take w bs) later (drop (k * w) rest)
    ∙ ap (λ ys. take w bs ++ ys) tail
    ∙ take-drop w bs

-- A stream with nothing behind the numbers.
pub all_bits-numbers_all :
    (k w : ℕ) (bs : List ℕ) → IsBits bs → length bs ≡ k * w → all_bits w (numbers k w bs) ≡ bs
all_bits-numbers_all k w bs a h =
    let read = all_bits w (numbers k w bs) in
    let end : drop (k * w) bs ≡ [] = subst (λ n. drop n bs ≡ []) h (drop-all bs) in
    sym (append-nil read)
    ∙ ap (λ ys. read ++ ys) (sym end)
    ∙ all_bits-numbers k w bs a (omega arith)

shift_right-suc : (k n : ℕ) → shift_right n (suc k) ≡ shift_right n k / 2
unfolding shift_right
shift_right-suc zero n = refl
shift_right-suc (suc k) n = shift_right-suc k (n / 2)

shift_right-zero : (n : ℕ) → shift_right n 0 ≡ n
unfolding shift_right
shift_right-zero n = refl

-- A number has no more bits than it is read from.
pub shift_right-number :
    (acc : ℕ) (bs : List ℕ) → IsBits bs → shift_right (number acc bs) (length bs) ≡ acc
unfolding number
shift_right-number acc [] a = shift_right-zero acc
shift_right-number acc (b ∷ bs) (h, a) =
    shift_right-suc (length bs) (number (acc * 2 + b) bs)
    ∙ ap (λ n. n / 2) (shift_right-number (acc * 2 + b) bs a)
    ∙ omega arith

pub numbers-Fit :
    (k w : ℕ) (bs : List ℕ)
    → IsBits bs
    → k * w ≤ length bs
    → All (λ n. shift_right n w ≡ 0) (numbers k w bs)
unfolding numbers
numbers-Fit zero w bs a h = tt
numbers-Fit (suc k) w bs a h =
    let fits : w ≤ length bs = omega arith in
    (
      subst (λ n. shift_right (number 0 (take w bs)) n ≡ 0) (length-take w bs fits)
          (shift_right-number 0 (take w bs) (IsBits-take w bs a)),
      numbers-Fit k w (drop w bs) (IsBits-drop w bs a) (omega (arith, length-drop w bs fits)),
    )

pub length-numbers : (k w : ℕ) (bs : List ℕ) → length (numbers k w bs) ≡ k
unfolding numbers
length-numbers zero w bs = refl
length-numbers (suc k) w bs = ap suc (length-numbers k w (drop w bs))

pub byte-Fits : (n : ℕ) → n < 256 → shift_right n 8 ≡ 0
unfolding shift_right
byte-Fits n h = omega arith

pub Fits-byte : (n : ℕ) → shift_right n 8 ≡ 0 → n < 256
unfolding shift_right
Fits-byte n h = omega arith

pub index-Fits : (n : ℕ) → n < 2048 → shift_right n 11 ≡ 0
unfolding shift_right
index-Fits n h = omega arith

pub Fits-index : (n : ℕ) → shift_right n 11 ≡ 0 → n < 2048
unfolding shift_right
Fits-index n h = omega arith

-- Two texts of bits of one length are equal if their numbers are.
pub number-injective :
    (xs ys : List ℕ)
    → IsBits xs
    → IsBits ys
    → length xs ≡ length ys
    → number 0 xs ≡ number 0 ys
    → xs ≡ ys
number-injective xs ys a b h e = sym (bits-number xs a) ∙ ap₂ bits h e ∙ bits-number ys b
