-- ===== src/Hpack/Codec/RoundTrip.antt =====
-- A whole header block, from Hpack::encode to Hpack::decode (src/hpack/hpack.cpp).
use chttp.Prelude.{
  ℕ, zero, suc, ◌≤◌, ◌<◌, ◌≡◌, refl, ap, ◌∙◌, List, [], ◌∷◌, ◌++◌, append_assoc, append-nil, Option,
  some, All, arith, length, length-append,
}
use chttp.HeaderField.{HeaderField}
use chttp.Hpack.HuffmanCoder.{HuffmanCoder, IsHuffmanCoder}
use chttp.Hpack.Table.{HpackTable}
use chttp.Hpack.Codec.{Hpack, encode_header, encode_headers, decode_header, push, seen, decode_loop}
use chttp.Hpack.Codec.Fields.{IsWireField}
use chttp.Hpack.Codec.Sync.{IsSynced, encode_header-Reads}

module _ (huffman : HuffmanCoder) where
  pub decode_loop_end :
      (fuel : ℕ) (h : Hpack) (acc : List HeaderField)
      → decode_loop huffman fuel h [] acc ≡ (h, some acc)
  unfolding decode_loop
  decode_loop_end fuel h acc = refl

  -- One round of the loop, where a step succeeds.
  pub decode_loop_step :
      (fuel : ℕ) (h : Hpack) (buffer : List ℕ) (acc : List HeaderField) (o : Option HeaderField)
      (rest : List ℕ) (after : Hpack)
      → decode_header huffman h buffer ≡ some (o, rest, after)
      → decode_loop huffman (suc fuel) h buffer acc
        ≡ decode_loop huffman fuel (seen o after) rest (push acc o)
  unfolding decode_loop
  decode_loop_step fuel h [] acc o rest after e = unfold decode_header in cc e
  decode_loop_step fuel h (b ∷ buffer) acc o rest after e = rw (e, decode_loop)

  -- A step is taken on one byte at least.
  pub step_nonempty :
      (h : Hpack) (buffer : List ℕ) (o : Option HeaderField) (rest : List ℕ) (after : Hpack)
      → decode_header huffman h buffer ≡ some (o, rest, after)
      → 0 < length buffer
  unfolding decode_header
  step_nonempty h [] o rest after e = cc e
  step_nonempty h (b ∷ buffer) o rest after e = omega arith

-- What the decoder has done with a block of the fields `fs`, from the table `t` of the encoder on.
pub record Decodes (h : Hpack) (t : HpackTable) (fs : List HeaderField)
    (result : Hpack × Option (List HeaderField)) : Type 0 where
  pub fields : result.1 ≡ some fs
  pub synced : IsSynced t result.0.decode_table
  pub same_limit : result.0.decode_table_limit ≡ h.decode_table_limit

module _ (huffman : HuffmanCoder) (law : IsHuffmanCoder huffman) where
  encode_header_nonempty :
      (t : HpackTable) (h : Hpack) (f : HeaderField)
      → IsSynced t h.decode_table
      → IsWireField f
      → 0 < length (encode_header huffman t f).0
  encode_header_nonempty t h f v w =
      let r = encode_header-Reads huffman law t h f [] v w in
      let bytes = (encode_header huffman t f).0 in
      omega (arith, step_nonempty huffman h (bytes ++ []) _ _ _ r.reads, length-append bytes [])

  pub decode_loop-encode_headers :
      (fs : List HeaderField) (t : HpackTable) (h : Hpack) (fuel : ℕ) (acc : List HeaderField)
      → IsSynced t h.decode_table
      → All IsWireField fs
      → length (encode_headers huffman t fs).0 ≤ fuel
      → Decodes h
          (encode_headers huffman t fs).1
          (acc ++ fs)
          (decode_loop huffman fuel h (encode_headers huffman t fs).0 acc)
  unfolding encode_headers
  decode_loop-encode_headers [] t h fuel acc v w le = record {
    fields = rw append-nil (ap (λ r. r.1) (decode_loop_end huffman fuel h acc));
    synced = rw (decode_loop_end huffman fuel h acc) v;
    same_limit = rw (decode_loop_end huffman fuel h acc);
  }
  decode_loop-encode_headers (f ∷ fs) t h zero acc v (w, ws) le = absurd (
      omega (
        arith,
        encode_header_nonempty t h f v w,
        length-append (encode_header huffman t f).0
            (encode_headers huffman (encode_header huffman t f).1 fs).0,
      ))
  decode_loop-encode_headers (f ∷ fs) t h (suc fuel) acc v (w, ws) le =
      let bytes = (encode_header huffman t f).0 in
      let t' = (encode_header huffman t f).1 in
      let more = (encode_headers huffman t' fs).0 in
      let r = encode_header-Reads huffman law t h f more v w in
      let some_bytes = encode_header_nonempty t h f v w in
      let h' = seen (some f) r.after in
      let rest =
        decode_loop-encode_headers fs t' h' fuel (acc ++ f ∷ []) r.synced ws
          (omega (arith, some_bytes, length-append bytes more)) in
      rw (decode_loop_step huffman fuel h (bytes ++ more) acc (some f) more r.after r.reads)
        (record {
          fields = rest.fields ∙ ap some (append_assoc acc (f ∷ []) fs);
          synced = rest.synced;
          same_limit = rest.same_limit ∙ r.same_limit;
        })
