-- ===== src/Hpack/Codec/Fields.antt =====
-- Each representation of a header field (src/hpack/hpack.cpp), written by the encoder and read by
-- the decoder.
use chttp.Prelude.{
  ℕ, ◌+◌, ◌-◌, ◌^◌, ◌<◌, ◌≡◌, ◌≢◌, ◌⊎◌, ◌==◌, ltb, bit_or, List, [], ◌∷◌, ◌++◌, append-nil, some,
  true, false, All, IsByte, arith, if◌then◌else◌, length, inl, inr, Bool-cases,
}
use chttp.HeaderField.{HeaderField}
use chttp.Hpack.HuffmanCoder.{HuffmanCoder, IsHuffmanCoder}
use chttp.Hpack.Table
use chttp.Hpack.VInt.{max_prefix, encode_groups, encode_vint}
use chttp.Hpack.VInt.RoundTrip.{add_first, pow_pos}
use chttp.Hpack.Str.{or_first, encode_string}
use chttp.Hpack.Str.RoundTrip.{sets_bit, or_first-encode_vint, decode_string-encode_string}
use chttp.Hpack.Codec.{
  Hpack, decode_indexed_header, decode_table_size_update, decode_name, decode_header_field,
  decode_header,
}

-- Fields that the code's integers can measure.
pub record IsWireField (f : HeaderField) : Type 0 where
  pub name_bytes : All IsByte f.name
  pub value_bytes : All IsByte f.value
  pub name_fits : length f.name < 2 ^ 63
  pub value_fits : length f.value < 2 ^ 63

-- The first byte of a varint under a flag.
pub record Headed (flag : ℕ) (low : ℕ) (bytes : List ℕ) : Type 0 where
  pub first : ℕ
  pub more : List ℕ
  pub is : bytes ≡ (first + flag) ∷ more
  pub low_part : first < low

pub add_first-Headed :
    (prefix flag value : ℕ) → Headed flag (2 ^ prefix) (add_first flag (encode_vint prefix value))
unfolding encode_vint
add_first-Headed prefix flag value = elim (Bool-cases (ltb value (max_prefix prefix))) [
  | inl t ↦ record {
    first = value;
    more = [];
    is = rw t;
    low_part = ground (arith, pow_pos prefix);
  }
  | inr f ↦ record {
    first = max_prefix prefix;
    more = encode_groups 9 (value - max_prefix prefix);
    is = rw f;
    low_part = ground (arith, pow_pos prefix);
  }
]

pub or_first-Headed :
    (prefix flag value : ℕ)
    → sets_bit (2 ^ prefix) flag ≡ true
    → Headed flag (2 ^ prefix) (or_first flag (encode_vint prefix value))
or_first-Headed prefix flag value ok =
    rw (or_first-encode_vint prefix flag value ok) (add_first-Headed prefix flag value)

module _ (huffman : HuffmanCoder) where
  -- The first byte selects the representation.
  pub dispatch_indexed :
      (h : Hpack) (bytes rest : List ℕ)
      → Headed 128 128 bytes
      → decode_header huffman h (bytes ++ rest) ≡ decode_indexed_header h (bytes ++ rest)
  unfolding decode_header
  dispatch_indexed h bytes rest x = let small = x.low_part in rw x.is (ground arith)

  pub dispatch_incremental :
      (h : Hpack) (bytes rest : List ℕ)
      → Headed 64 64 bytes
      → decode_header huffman h (bytes ++ rest)
        ≡ decode_header_field huffman h 6 true false (bytes ++ rest)
  unfolding decode_header
  dispatch_incremental h bytes rest x = let small = x.low_part in rw x.is (ground arith)

  pub dispatch_size_update :
      (h : Hpack) (bytes rest : List ℕ)
      → Headed 32 32 bytes
      → h.first_field ≡ true
      → decode_header huffman h (bytes ++ rest) ≡ decode_table_size_update h (bytes ++ rest)
  unfolding decode_header
  dispatch_size_update h bytes rest x first = let small = x.low_part in rw x.is (ground arith)

  pub dispatch_never :
      (h : Hpack) (bytes rest : List ℕ)
      → Headed 16 16 bytes
      → decode_header huffman h (bytes ++ rest)
        ≡ decode_header_field huffman h 4 false true (bytes ++ rest)
  unfolding decode_header
  dispatch_never h bytes rest x = let small = x.low_part in rw x.is (ground arith)

  pub dispatch_literal :
      (h : Hpack) (bytes rest : List ℕ)
      → Headed 0 16 bytes
      → decode_header huffman h (bytes ++ rest)
        ≡ decode_header_field huffman h 4 false false (bytes ++ rest)
  unfolding decode_header
  dispatch_literal h bytes rest x = let small = x.low_part in rw x.is (ground arith)

-- The name after an index, or a name's bytes after index 0.
pub name_bytes : HuffmanCoder → ℕ → List ℕ → List ℕ
name_bytes huffman index name = if index == 0 then encode_string huffman name else []

module _ (huffman : HuffmanCoder) where
  pub indexed_name :
      (prefix flag index : ℕ) (name : List ℕ)
      → 0 < max_prefix prefix
      → bit_or 0 flag ≡ flag
      → (if ltb 0 index
          then or_first flag (encode_vint prefix index)
          else flag ∷ encode_string huffman name)
        ≡ or_first flag (encode_vint prefix index) ++ name_bytes huffman index name
  unfolding name_bytes or_first encode_vint
  indexed_name prefix flag index name pos zero_or =
      ground (arith, append-nil (or_first flag (encode_vint prefix index)))

  -- The same without a flag.
  pub plain_name :
      (index : ℕ) (name : List ℕ)
      → (if ltb 0 index then encode_vint 4 index else 0 ∷ encode_string huffman name)
        ≡ encode_vint 4 index ++ name_bytes huffman index name
  unfolding name_bytes encode_vint
  plain_name index name = ground (arith, append-nil (encode_vint 4 index))

-- The decoder finds the name `name` at `index`, or the index is 0.
abbrev pub Names : Hpack → ℕ → List ℕ → Type 0
Names h index name =
    (index ≡ 0)
    ⊎ ((e : HeaderField) × (Table.at h.decode_table index ≡ some e) × (e.name ≡ name) × (index ≢ 0))

module _ (huffman : HuffmanCoder) (law : IsHuffmanCoder huffman) where
  pub decode_name-name_bytes :
      (h : Hpack) (f : HeaderField) (index : ℕ) (rest : List ℕ)
      → IsWireField f
      → Names h index f.name
      → decode_name huffman h index (name_bytes huffman index f.name ++ rest) ≡ some (f.name, rest)
  unfolding decode_name name_bytes
  decode_name-name_bytes h f index rest w (inl e) =
      rw e (decode_string-encode_string huffman law f.name rest w.name_bytes w.name_fits)
  decode_name-name_bytes h f index rest w (inr (e, found, same, pos)) = ground (arith, found, same)
