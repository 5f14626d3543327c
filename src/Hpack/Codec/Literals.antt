-- ===== src/Hpack/Codec/Literals.antt =====
-- Whole header fields, written by the encoder and read by decodeHeader (src/hpack/hpack.cpp).
use chttp.Prelude.{
  ℕ, ◌^◌, ◌<◌, ◌≤◌, ◌≡◌, refl, sym, ◌∙◌, List, ◌++◌, append_assoc, none, some, Bool, true, false,
  arith, if◌then◌else◌,
}
use chttp.HeaderField.{HeaderField}
use chttp.Hpack.HuffmanCoder.{HuffmanCoder, IsHuffmanCoder}
use chttp.Hpack.Table
use chttp.Hpack.VInt.{encode_vint, decode_vint}
use chttp.Hpack.Str.{or_first, encode_string}
use chttp.Hpack.Str.RoundTrip.{
  sets_bit, decode_vint-or_first, decode_vint-plain, decode_string-encode_string, add_first_zero,
}
use chttp.Hpack.Codec.{
  Hpack, encode_indexed_header, encode_table_size_update, encode_index_literal_header,
  encode_un_index_literal_header, encode_never_index_literal_header, decode_indexed_header,
  decode_table_size_update, decode_header_field, decode_header,
}
use chttp.Hpack.Codec.Fields.{
  IsWireField, add_first-Headed, or_first-Headed, dispatch_indexed, dispatch_incremental,
  dispatch_size_update, dispatch_never, dispatch_literal, name_bytes, indexed_name, plain_name,
  Names, decode_name-name_bytes,
}

-- The decoder's state after a field that it adds to its table, or not.
abbrev pub after_field : Hpack → Bool → HeaderField → Hpack
after_field h indexed f =
    if indexed then record h { decode_table = Table.insert h.decode_table f } else h

ok_4 : sets_bit (2 ^ 4) (2 ^ 4) ≡ true
unfolding sets_bit
ok_4 = refl

ok_5 : sets_bit (2 ^ 5) (2 ^ 5) ≡ true
unfolding sets_bit
ok_5 = refl

ok_6 : sets_bit (2 ^ 6) (2 ^ 6) ≡ true
unfolding sets_bit
ok_6 = refl

ok_7 : sets_bit (2 ^ 7) (2 ^ 7) ≡ true
unfolding sets_bit
ok_7 = refl

module _ (huffman : HuffmanCoder) (law : IsHuffmanCoder huffman) where
  -- Once the index of the name is read.
  read_field :
      (h : Hpack) (f : HeaderField) (prefix : ℕ) (indexed sensitive : Bool) (index : ℕ)
      (buffer rest : List ℕ)
      → decode_vint buffer prefix
        ≡ some (index, name_bytes huffman index f.name ++ (encode_string huffman f.value ++ rest))
      → IsWireField f
      → Names h index f.name
      → sensitive ≡ f.sensitivity
      → decode_header_field huffman h prefix indexed sensitive buffer
        ≡ some (some f, rest, after_field h indexed f)
  unfolding decode_header_field
  read_field h f prefix indexed sensitive index buffer rest e w n s =
      let tail = encode_string huffman f.value ++ rest in
      rw e (
        rw (decode_name-name_bytes huffman law h f index tail w n) (
          rw (decode_string-encode_string huffman law f.value rest w.value_bytes w.value_fits)
            (rw s)))

  pub incremental :
      (h : Hpack) (f : HeaderField) (index : ℕ) (rest : List ℕ)
      → index < 2 ^ 63
      → IsWireField f
      → Names h index f.name
      → f.sensitivity ≡ false
      → decode_header huffman h (encode_index_literal_header huffman index f ++ rest)
        ≡ some (some f, rest, after_field h true f)
  unfolding encode_index_literal_header
  incremental h f index rest fits w n s =
      let first = or_first 0x40 (encode_vint 6 index) in
      let name = name_bytes huffman index f.name in
      let value = encode_string huffman f.value in
      rw (indexed_name huffman 6 0x40 index f.name (omega arith) refl, append_assoc, append_assoc)
        (dispatch_incremental huffman h first (name ++ (value ++ rest))
            (or_first-Headed 6 0x40 index ok_6)
          ∙ read_field h f 6 true false index (first ++ (name ++ (value ++ rest))) rest
              (decode_vint-or_first 6 index (name ++ (value ++ rest)) (omega arith) (omega arith)
                ok_6 fits)
              w n (sym s))

  pub never :
      (h : Hpack) (f : HeaderField) (index : ℕ) (rest : List ℕ)
      → index < 2 ^ 63
      → IsWireField f
      → Names h index f.name
      → f.sensitivity ≡ true
      → decode_header huffman h (encode_never_index_literal_header huffman index f ++ rest)
        ≡ some (some f, rest, h)
  unfolding encode_never_index_literal_header
  never h f index rest fits w n s =
      let first = or_first 0x10 (encode_vint 4 index) in
      let name = name_bytes huffman index f.name in
      let value = encode_string huffman f.value in
      rw (indexed_name huffman 4 0x10 index f.name (omega arith) refl, append_assoc, append_assoc)
        (dispatch_never huffman h first (name ++ (value ++ rest))
            (or_first-Headed 4 0x10 index ok_4)
          ∙ read_field h f 4 false true index (first ++ (name ++ (value ++ rest))) rest
              (decode_vint-or_first 4 index (name ++ (value ++ rest)) (omega arith) (omega arith)
                ok_4 fits)
              w n (sym s))

  pub literal :
      (h : Hpack) (f : HeaderField) (index : ℕ) (rest : List ℕ)
      → index < 2 ^ 63
      → IsWireField f
      → Names h index f.name
      → f.sensitivity ≡ false
      → decode_header huffman h (encode_un_index_literal_header huffman index f ++ rest)
        ≡ some (some f, rest, h)
  unfolding encode_un_index_literal_header
  literal h f index rest fits w n s =
      let first = encode_vint 4 index in
      let name = name_bytes huffman index f.name in
      let value = encode_string huffman f.value in
      rw (plain_name huffman index f.name, append_assoc, append_assoc)
        (dispatch_literal huffman h first (name ++ (value ++ rest))
            (rw (add_first_zero (encode_vint 4 index)) at (add_first-Headed 4 0 index))
          ∙ read_field h f 4 false false index (first ++ (name ++ (value ++ rest))) rest
              (decode_vint-plain 4 index (name ++ (value ++ rest)) (omega arith) (omega arith) fits)
              w n (sym s))

-- No string is in these two, so no coder.
module _ (huffman : HuffmanCoder) where
  pub indexed :
      (h : Hpack) (f : HeaderField) (index : ℕ) (rest : List ℕ)
      → index < 2 ^ 63
      → Table.at h.decode_table index ≡ some f
      → decode_header huffman h (encode_indexed_header index ++ rest) ≡ some (some f, rest, h)
  unfolding encode_indexed_header decode_indexed_header
  indexed h f index rest fits found =
      let first = or_first 0x80 (encode_vint 7 index) in
      dispatch_indexed huffman h first rest (or_first-Headed 7 0x80 index ok_7)
      ∙ rw (decode_vint-or_first 7 index rest (omega arith) (omega arith) ok_7 fits) (rw found)

  pub size_update :
      (h : Hpack) (n : ℕ) (rest : List ℕ)
      → n < 2 ^ 63
      → n ≤ h.decode_table_limit
      → h.first_field ≡ true
      → decode_header huffman h (encode_table_size_update n ++ rest)
        ≡ some (none, rest, record h { decode_table = Table.set_max_size h.decode_table n })
  unfolding encode_table_size_update decode_table_size_update
  size_update h n rest fits le first_field =
      let first = or_first 0x20 (encode_vint 5 n) in
      dispatch_size_update huffman h first rest (or_first-Headed 5 0x20 n ok_5) first_field
      ∙ rw (decode_vint-or_first 5 n rest (omega arith) (omega arith) ok_5 fits) (ground arith)
