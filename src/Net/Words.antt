-- ===== src/Net/Words.antt =====
-- `htonl` and `ntohl` as the client and the server use them: a word of 32 bits as four bytes, the
-- highest first.
use stupid_ids.Base.{
  ℕ, ◌+◌, ◌*◌, ◌/◌, ◌%◌, ◌≡◌, ◌<◌, List, [], ◌∷◌, ◌++◌, arith, All, length, length-append, refl,
  suc,
}

abbrev pub word : ℕ
word = 4294967296

abbrev pub Bytes : Type 0
Bytes = List ℕ

unfoldable pub encode_word : ℕ → Bytes
encode_word n = (n / 16777216 % 256) ∷ (n / 65536 % 256) ∷ (n / 256 % 256) ∷ (n % 256) ∷ []

-- The first four bytes of a buffer.
unfoldable pub decode_word : Bytes → ℕ
decode_word (a ∷ b ∷ c ∷ d ∷ rest) = 16777216 * a + 65536 * b + 256 * c + d
decode_word _ = 0

unfoldable pub encode_words : List ℕ → Bytes
encode_words [] = []
encode_words (n ∷ ns) = encode_word n ++ encode_words ns

-- The first `count` words of a buffer.
unfoldable pub decode_words : ℕ → Bytes → List ℕ
decode_words (suc count) (a ∷ b ∷ c ∷ d ∷ rest) =
    decode_word (a ∷ b ∷ c ∷ d ∷ []) ∷ decode_words count rest
decode_words _ _ = []

pub length-encode_word : (n : ℕ) → length (encode_word n) ≡ 4
unfolding encode_word
length-encode_word n = refl

pub length-encode_words : (ns : List ℕ) → length (encode_words ns) ≡ 4 * length ns
unfolding encode_words
length-encode_words [] = omega arith
length-encode_words (n ∷ ns) = omega (
  arith,
  length-append (encode_word n) (encode_words ns),
  length-encode_word n,
  length-encode_words ns,
)

pub decode-encode_word : (n : ℕ) → n < word → decode_word (encode_word n) ≡ n
unfolding encode_word decode_word
decode-encode_word n h = omega arith

abbrev pub AreWords : List ℕ → Type 0
AreWords = All (λ n. n < word)

-- Words that were encoded one after the other are decoded to the same words, if each has 32 bits.
pub decode-encode_words :
    (ns : List ℕ) → AreWords ns → decode_words (length ns) (encode_words ns) ≡ ns
unfolding encode_words decode_words encode_word
decode-encode_words [] h = refl
decode-encode_words (n ∷ ns) h = rw (decode-encode_word n h.0, decode-encode_words ns h.1)
