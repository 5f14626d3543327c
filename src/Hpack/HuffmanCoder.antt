-- ===== src/Hpack/HuffmanCoder.antt =====
-- What src/hpack/hpack.cpp uses of class Huffman (include/chttp2/hpack/huffman.hpp): the length in
-- bytes of an encoding, the encoding, and the decoding, with `none` for INVALID_CODE. The header
-- code takes it as a parameter.
use chttp.Prelude.{ℕ, ◌≡◌, List, Option, some, All, IsByte, length}

pub record HuffmanCoder : Type 0 where
  pub encoded_length : List ℕ → ℕ
  pub encode : List ℕ → List ℕ
  pub decode : List ℕ → Option (List ℕ)

-- The contract of the coder.
pub record IsHuffmanCoder (c : HuffmanCoder) : Type 0 where
  pub length-encode : (s : List ℕ) → All IsByte s → length (c.encode s) ≡ c.encoded_length s
  pub decode-encode : (s : List ℕ) → All IsByte s → c.decode (c.encode s) ≡ some s
