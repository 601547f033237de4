-- ===== src/LogFile/Words.antt =====
-- The bytes of a word, and the bounds that let them be read again.
use zray.Base.{
  ℕ, zero, suc, ◌*◌, ◌/◌, ◌%◌, ◌^◌, ◌<◌, ◌≡◌, refl, ap, ◌∙◌, List, [], ◌∷◌, ◌++◌, length, All,
  arith,
}
use zray.LogFile.{
  encode_word, decode_word, encode_words, decode_words, checksum, checksum_from, sign_extend,
}
use Prim.Native.Nat.{bit_xor}

-- How many numbers `k` bytes hold.
abbrev pub capacity : ℕ → ℕ
capacity zero = 1
capacity (suc k) = 256 * capacity k

pub decode_word-encode_word : (k n : ℕ) → n < capacity k → decode_word (encode_word k n) ≡ n
unfolding decode_word encode_word
decode_word-encode_word zero n h = omega arith
decode_word-encode_word (suc k) n h =
    omega (arith, decode_word-encode_word k (n / 256) (omega arith))

pub length-encode_word : (k n : ℕ) → length (encode_word k n) ≡ k
unfolding encode_word
length-encode_word zero n = refl
length-encode_word (suc k) n = ap suc (length-encode_word k (n / 256))

abbrev pub IsWord : ℕ → Type 0
IsWord n = n < 2 ^ 64

pub word_back : (n : ℕ) → IsWord n → decode_word (encode_word 8 n) ≡ n
word_back n h = decode_word-encode_word 8 n h

pub length-encode_words : (ws : List ℕ) → length (encode_words ws) ≡ 8 * length ws
unfolding encode_words encode_word
length-encode_words [] = refl
length-encode_words (w ∷ ws) = omega (arith, length-encode_words ws)

-- A word at the head of the bytes is read, and what follows it is left.
read_word :
    (w : ℕ) (ws : List ℕ) (rest : List ℕ)
    → IsWord w
    → decode_words (suc (length ws)) (encode_words (w ∷ ws) ++ rest)
      ≡ (let (vs, bs) = decode_words (length ws) (encode_words ws ++ rest) in (w ∷ vs, bs))
unfolding decode_words encode_words encode_word decode_word
read_word w ws rest h =
    ap (λ v. let (vs, bs) = decode_words (length ws) (encode_words ws ++ rest) in (v ∷ vs, bs))
      (word_back w h)

pub decode_words-encode_words :
    (ws rest : List ℕ)
    → All IsWord ws
    → decode_words (length ws) (encode_words ws ++ rest) ≡ (ws, rest)
unfolding decode_words encode_words
decode_words-encode_words [] rest h = refl
decode_words-encode_words (w ∷ ws) rest (h, hs) =
    read_word w ws rest h
    ∙ ap (λ (r : List ℕ × List ℕ). let (vs, bs) = r in (w ∷ vs, bs))
        (decode_words-encode_words ws rest hs)

checksum_from-lt : (sum : ℕ) (bs : List ℕ) → sum < 2 ^ 32 → checksum_from sum bs < 2 ^ 32
unfolding checksum_from
checksum_from-lt sum [] h = h
checksum_from-lt sum (b ∷ bs) h =
    checksum_from-lt (bit_xor sum (sign_extend b) % 2 ^ 32) bs (omega arith)

pub checksum-lt : (bs : List ℕ) → checksum bs < 2 ^ 32
unfolding checksum
checksum-lt bs = checksum_from-lt 0 bs (omega arith)

-- The checksum that is written is the one that is read.
pub check_back : (bs : List ℕ) → decode_word (encode_word 4 (checksum bs)) ≡ checksum bs
check_back bs = decode_word-encode_word 4 (checksum bs) (checksum-lt bs)
