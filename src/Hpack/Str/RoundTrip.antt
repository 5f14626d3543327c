-- ===== src/Hpack/Str/RoundTrip.antt =====
-- What encodeString writes, decodeString reads back (src/hpack/hpack.cpp).
use chttp.Prelude.{
  ℕ, zero, suc, ◌+◌, ◌*◌, ◌^◌, ◌≤◌, ◌<◌, ◌≡◌, ◌==◌, ==_iff, ltb→lt, refl, bit_or, ltb, List, [],
  ◌∷◌, ◌++◌, some, Bool, true, false, ◌&&◌, All, IsByte, arith, if◌then◌else◌, length, append_assoc,
  length-append, take-length_append, drop-length_append, inl, inr, Bool-cases,
}
use chttp.Hpack.HuffmanCoder.{HuffmanCoder, IsHuffmanCoder}
use chttp.Hpack.VInt.{max_prefix, encode_vint, decode_vint}
use chttp.Hpack.VInt.RoundTrip.{pow_pos, add_first, decode_vint-encode_vint}
use chttp.Hpack.Str.{or_first, huffman_flag, encode_string, decode_string}

-- Setting a bit above the low bits of a byte, by evaluation.
unfoldable pub sets_bit : ℕ → ℕ → Bool
sets_bit zero flag = true
sets_bit (suc n) flag = bit_or n flag == n + flag && sets_bit n flag

bit_or-eq-add : (n flag b : ℕ) → sets_bit n flag ≡ true → b < n → bit_or b flag ≡ b + flag
unfolding sets_bit
bit_or-eq-add zero flag b ok h = absurd (omega arith)
bit_or-eq-add (suc n) flag b ok h =
    ground (arith, ==_iff (bit_or n flag) (n + flag), bit_or-eq-add n flag b)

-- The first byte of a varint leaves the bits above its prefix clear.
pub or_first-encode_vint :
    (prefix flag value : ℕ)
    → sets_bit (2 ^ prefix) flag ≡ true
    → or_first flag (encode_vint prefix value) ≡ add_first flag (encode_vint prefix value)
unfolding or_first encode_vint
or_first-encode_vint prefix flag value ok = ground (
  arith,
  pow_pos prefix,
  bit_or-eq-add (2 ^ prefix) flag value ok,
  bit_or-eq-add (2 ^ prefix) flag (max_prefix prefix) ok,
)

-- A flag of one bit at the prefix, written into the first byte, does not disturb the reading.
pub decode_vint-or_first :
    (prefix value : ℕ) (rest : List ℕ)
    → 1 ≤ prefix
    → prefix ≤ 7
    → sets_bit (2 ^ prefix) (2 ^ prefix) ≡ true
    → value < 2 ^ 63
    → decode_vint (or_first (2 ^ prefix) (encode_vint prefix value) ++ rest) prefix
      ≡ some (value, rest)
decode_vint-or_first prefix value rest lo hi ok fits =
    let once : 1 * 2 ^ prefix ≡ 2 ^ prefix = omega arith in
    rw (or_first-encode_vint prefix (2 ^ prefix) value ok)
      (rw once at (decode_vint-encode_vint prefix value 1 rest lo (omega arith) fits))

pub add_first_zero : (bytes : List ℕ) → add_first 0 bytes ≡ bytes
add_first_zero [] = refl
add_first_zero (b ∷ bytes) = ground arith

pub decode_vint-plain :
    (prefix value : ℕ) (rest : List ℕ)
    → 1 ≤ prefix
    → prefix ≤ 8
    → value < 2 ^ 63
    → decode_vint (encode_vint prefix value ++ rest) prefix ≡ some (value, rest)
decode_vint-plain prefix value rest lo hi fits =
    let none_set : 0 * 2 ^ prefix ≡ 0 = omega arith in
    rw (none_set, add_first_zero (encode_vint prefix value)) at
      (decode_vint-encode_vint prefix value 0 rest lo hi fits)

-- The bit that marks a Huffman coded string.
huffman_flag-plain :
    (value : ℕ) (rest : List ℕ) → huffman_flag (encode_vint 7 value ++ rest) ≡ false
unfolding huffman_flag encode_vint
huffman_flag-plain value rest = ground arith

huffman_flag-set :
    (value : ℕ) (rest : List ℕ) → huffman_flag (add_first 128 (encode_vint 7 value) ++ rest) ≡ true
unfolding huffman_flag encode_vint
huffman_flag-set value rest = ground arith

seven : sets_bit (2 ^ 7) (2 ^ 7) ≡ true
unfolding sets_bit
seven = refl

module _ (huffman : HuffmanCoder) (law : IsHuffmanCoder huffman) where
  -- Once the length is read.
  decode_string-known :
      (buffer body rest str : List ℕ)
      → decode_vint buffer 7 ≡ some (length body, body ++ rest)
      → (if huffman_flag buffer then huffman.decode body else some body) ≡ some str
      → decode_string huffman buffer ≡ some (str, rest)
  unfolding decode_string
  decode_string-known buffer body rest str e d = rw e (
      ground (
        arith,
        d,
        length-append body rest,
        take-length_append body rest,
        drop-length_append body rest,
      ))

  coded :
      (str rest : List ℕ)
      → All IsByte str
      → length str < 2 ^ 63
      → huffman.encoded_length str < length str
      → decode_string huffman (
          (or_first 0x80 (encode_vint 7 (huffman.encoded_length str)) ++ huffman.encode str)
          ++ rest)
        ≡ some (str, rest)
  coded str rest bytes fits shorter =
      let n = huffman.encoded_length str in
      let first = or_first 0x80 (encode_vint 7 n) in
      let read : decode_vint (first ++ (huffman.encode str ++ rest)) 7
          ≡ some (n, huffman.encode str ++ rest) =
        decode_vint-or_first 7 n (huffman.encode str ++ rest) (omega arith) (omega arith) seven
          (omega arith) in
      let flag : huffman_flag (first ++ (huffman.encode str ++ rest)) ≡ true =
        rw (or_first-encode_vint 7 0x80 n seven)
          (huffman_flag-set n (huffman.encode str ++ rest)) in
      rw append_assoc (
        decode_string-known _ (huffman.encode str) rest str (rw (law.length-encode str bytes) read)
          (rw flag (law.decode-encode str bytes)))

  plain :
      (str rest : List ℕ)
      → length str < 2 ^ 63
      → decode_string huffman ((encode_vint 7 (length str) ++ str) ++ rest) ≡ some (str, rest)
  plain str rest fits = rw append_assoc (
      decode_string-known _ str rest str
        (decode_vint-plain 7 (length str) (str ++ rest) (omega arith) (omega arith) fits)
        (rw (huffman_flag-plain (length str) (str ++ rest))))

  -- A string of fewer than 2^63 bytes comes back, whether it was Huffman coded or not, and the
  -- bytes after it are left, for every coder that meets its contract.
  pub decode_string-encode_string :
      (str rest : List ℕ)
      → All IsByte str
      → length str < 2 ^ 63
      → decode_string huffman (encode_string huffman str ++ rest) ≡ some (str, rest)
  unfolding encode_string
  decode_string-encode_string str rest bytes fits =
      elim (Bool-cases (ltb (huffman.encoded_length str) (length str))) [
        | inl t ↦ rw t (coded str rest bytes fits (ltb→lt _ _ t))
        | inr f ↦ rw f (plain str rest fits)
      ]
