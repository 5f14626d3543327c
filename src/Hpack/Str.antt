-- ===== src/Hpack/Str.antt =====
-- Hpack::encodeString and decodeString (src/hpack/hpack.cpp). `|=` on the first byte of what was
-- just appended is `or_first`. The buffers are of fewer than 2^32 bytes, as their 32-bit lengths are.
pub mod RoundTrip
use chttp.Prelude.{
  ℕ, ◌/◌, ◌%◌, ◌==◌, bit_or, ltb, List, [], ◌∷◌, ◌++◌, Option, none, some, Bool, true, false,
  if◌then◌else◌, length, take, drop, ◌>>=◌,
}
use chttp.Hpack.HuffmanCoder.{HuffmanCoder}
use chttp.Hpack.VInt.{encode_vint, decode_vint}

unfoldable pub or_first : ℕ → List ℕ → List ℕ
or_first flag [] = []
or_first flag (b ∷ bytes) = bit_or b flag ∷ bytes

-- `peek<uint8_t>() & 0x80`.
unfoldable pub huffman_flag : List ℕ → Bool
huffman_flag [] = false
huffman_flag (b ∷ bytes) = b / 128 % 2 == 1

module _ (huffman : HuffmanCoder) where
  unfoldable pub encode_string : List ℕ → List ℕ
  encode_string str =
      let huffman_length = huffman.encoded_length str in
      if ltb huffman_length (length str)
      then or_first 0x80 (encode_vint 7 huffman_length) ++ huffman.encode str
      else encode_vint 7 (length str) ++ str

  -- The string and the bytes after it.
  unfoldable pub decode_string : List ℕ → Option (List ℕ × List ℕ)
  decode_string buffer = do
    (len, buffer') ← decode_vint buffer 7
    if ltb (length buffer') len then none else do
      str ←
          (if huffman_flag buffer
            then huffman.decode (take len buffer')
            else some (take len buffer'))
      some (str, drop len buffer')
