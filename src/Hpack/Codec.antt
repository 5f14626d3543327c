-- ===== src/Hpack/Codec.antt =====
-- class Hpack (include/chttp2/hpack/hpack.hpp, src/hpack/hpack.cpp): the representations of a header
-- field, the encoder and the decoder. An encoding function gives the bytes that the code appends to
-- the buffer; `decodeBuffer` is an argument and the bytes left are a result. A decoding step that
-- fails has changed nothing, so its result is `none`.
pub mod Fields
pub mod Literals
pub mod Sync
pub mod RoundTrip
pub mod Resize
pub mod Block
use chttp.Prelude.{
  ℕ, zero, suc, ◌+◌, ◌-◌, ◌/◌, ◌^◌, ◌==◌, ltb, leb, min, List, [], ◌∷◌, ◌++◌, Option, none, some,
  Bool, true, false, ◌&&◌, not, if◌then◌else◌, length, ◌>>=◌,
}
use chttp.HeaderField.{HeaderField, size}
use chttp.Hpack.HuffmanCoder.{HuffmanCoder}
use chttp.Hpack.Table
use chttp.Hpack.Table.{HpackTable, init_max_table_size}
use chttp.Hpack.VInt.{encode_vint, decode_vint}
use chttp.Hpack.Str.{or_first, encode_string, decode_string}

-- The largest std::size_t.
abbrev pub size_max : ℕ
size_max = 2 ^ 64 - 1

pub record Hpack : Type 0 where
  pub first_field : Bool
  pub decode_table : HpackTable
  pub decode_table_limit : ℕ
  pub encode_table : HpackTable
  pub encode_table_dirty : Bool
  pub encode_min_size : ℕ

-- Hpack::reset, and the initial values of the members.
abbrev pub initial : Hpack
initial = record {
  first_field = true;
  decode_table = Table.empty;
  decode_table_limit = init_max_table_size;
  encode_table = Table.empty;
  encode_table_dirty = false;
  encode_min_size = size_max;
}

unfoldable pub set_decode_table_limit : Hpack → ℕ → Hpack
set_decode_table_limit h limit = record h {
  decode_table_limit = limit;
  decode_table = Table.set_max_size h.decode_table limit;
}

unfoldable pub set_encode_table_size : Hpack → ℕ → Hpack
set_encode_table_size h n = record h {
  encode_min_size = min n h.encode_min_size;
  encode_table_dirty = true;
  encode_table = Table.set_max_size h.encode_table n;
}

unfoldable pub encode_indexed_header : ℕ → List ℕ
encode_indexed_header index = or_first 0x80 (encode_vint 7 index)

unfoldable pub encode_table_size_update : ℕ → List ℕ
encode_table_size_update n = or_first 0x20 (encode_vint 5 n)

unfoldable pub could_index : HpackTable → HeaderField → Bool
could_index t header =
    if header.sensitivity then false else leb (t.dynamic_bytes + size header) t.max_size

-- The updates at the beginning of a header block, after the peer has changed the table's size.
unfoldable pub size_updates : Hpack → List ℕ
size_updates h =
    if h.encode_table_dirty
    then (if ltb h.encode_min_size h.encode_table.max_size
        then encode_table_size_update h.encode_min_size
        else [])
      ++ encode_table_size_update h.encode_table.max_size
    else []

unfoldable pub clear_dirty : Hpack → Hpack
clear_dirty h =
    if h.encode_table_dirty
    then record h { encode_table_dirty = false; encode_min_size = size_max }
    else h

-- What a decoding step gives: a field, unless it was a size update, the bytes left and the state.
abbrev pub Step : Type 0
Step = Option (Option HeaderField × List ℕ × Hpack)

unfoldable pub decode_indexed_header : Hpack → List ℕ → Step
decode_indexed_header h buffer = do
  (index, buffer) ← decode_vint buffer 7
  header ← Table.at h.decode_table index
  some (some header, buffer, h)

unfoldable pub decode_table_size_update : Hpack → List ℕ → Step
decode_table_size_update h buffer = do
  (n, buffer) ← decode_vint buffer 5
  if ltb h.decode_table_limit n
      then none
      else some (none, buffer, record h { decode_table = Table.set_max_size h.decode_table n })

-- `push_back`, and `firstField = false` after a field.
abbrev pub push : List HeaderField → Option HeaderField → List HeaderField
push headers none = headers
push headers (some header) = headers ++ header ∷ []

abbrev pub seen : Option HeaderField → Hpack → Hpack
seen none h = h
seen (some header) h = record h { first_field = false }

module _ (huffman : HuffmanCoder) where
  unfoldable pub encode_index_literal_header : ℕ → HeaderField → List ℕ
  encode_index_literal_header index header =
      (if ltb 0 index
        then or_first 0x40 (encode_vint 6 index)
        else 0x40 ∷ encode_string huffman header.name)
      ++ encode_string huffman header.value

  unfoldable pub encode_un_index_literal_header : ℕ → HeaderField → List ℕ
  encode_un_index_literal_header index header =
      (if ltb 0 index then encode_vint 4 index else 0 ∷ encode_string huffman header.name)
      ++ encode_string huffman header.value

  unfoldable pub encode_never_index_literal_header : ℕ → HeaderField → List ℕ
  encode_never_index_literal_header index header =
      (if ltb 0 index
        then or_first 0x10 (encode_vint 4 index)
        else 0x10 ∷ encode_string huffman header.name)
      ++ encode_string huffman header.value

  -- The field after `find` has answered.
  unfoldable pub encode_found : HpackTable → HeaderField → Bool × ℕ → List ℕ × HpackTable
  encode_found t header (exact, index) =
      if header.sensitivity
      then (encode_never_index_literal_header index header, t)
      else if exact
      then (encode_indexed_header index, t)
      else if could_index t header
      then (encode_index_literal_header index header, Table.insert t header)
      else (encode_un_index_literal_header index header, t)

  -- One round of the loop of `encode`.
  unfoldable pub encode_header : HpackTable → HeaderField → List ℕ × HpackTable
  encode_header t header = encode_found t header (Table.find t header)

  unfoldable pub encode_headers : HpackTable → List HeaderField → List ℕ × HpackTable
  encode_headers t [] = ([], t)
  encode_headers t (header ∷ headers) =
      let (bytes, t') = encode_header t header in
      let (more, t'') = encode_headers t' headers in (bytes ++ more, t'')

  unfoldable pub encode : Hpack → List HeaderField → List ℕ × Hpack
  encode h headers =
      let (bytes, t) = encode_headers h.encode_table headers in
      (size_updates h ++ bytes, record (clear_dirty h) { encode_table = t })

  -- The name, by its index or as a string.
  unfoldable pub decode_name : Hpack → ℕ → List ℕ → Option (List ℕ × List ℕ)
  decode_name h index buffer =
      if index == 0
      then decode_string huffman buffer
      else (do header ← Table.at h.decode_table index; some (header.name, buffer))

  unfoldable pub decode_header_field : Hpack → ℕ → Bool → Bool → List ℕ → Step
  decode_header_field h prefix indexed sensitive buffer = do
    (index, buffer) ← decode_vint buffer prefix
    (name, buffer) ← decode_name h index buffer
    (value, buffer) ← decode_string huffman buffer
    let header : HeaderField = record { name = name; value = value; sensitivity = sensitive }
    let h' : Hpack =
        (if indexed then record h { decode_table = Table.insert h.decode_table header } else h)
    some (some header, buffer, h')

  -- The switch over the first byte.
  unfoldable pub decode_header : Hpack → List ℕ → Step
  decode_header h [] = none
  decode_header h (flag ∷ bytes) =
      if flag / 2 ^ 7 == 1
      then decode_indexed_header h (flag ∷ bytes)
      else if flag / 2 ^ 6 == 1
      then decode_header_field h 6 true false (flag ∷ bytes)
      else if flag / 2 ^ 5 == 1
      then (if not h.first_field then none else decode_table_size_update h (flag ∷ bytes))
      else if flag / 2 ^ 4 == 1
      then decode_header_field h 4 false true (flag ∷ bytes)
      else decode_header_field h 4 false false (flag ∷ bytes)

  -- A step takes one byte at least, so the length of the block is fuel enough. `none` is `false`.
  unfoldable pub decode_loop :
      ℕ → Hpack → List ℕ → List HeaderField → Hpack × Option (List HeaderField)
  decode_loop fuel h [] headers = (h, some headers)
  decode_loop zero h (b ∷ buffer) headers = (h, none)
  decode_loop (suc fuel) h (b ∷ buffer) headers = elim (decode_header h (b ∷ buffer)) [
    | none ↦ (h, none)
    | some (header, rest, h') ↦ decode_loop fuel (seen header h') rest (push headers header)
  ]

  unfoldable pub decode : Hpack → List ℕ → Hpack × Option (List HeaderField)
  decode h block = decode_loop (length block) (record h { first_field = true }) block []
