-- ===== src/Hpack/Codec/Block.antt =====
-- A header block between two ends (Hpack::encode and Hpack::decode, src/hpack/hpack.cpp), the size
-- updates at its beginning included.
use chttp.Prelude.{
  ℕ, zero, suc, ◌^◌, ◌≤◌, ◌<◌, ◌≡◌, min, ltb, refl, sym, ap, ◌∙◌, List, [], ◌∷◌, ◌++◌, append_assoc,
  none, some, true, false, arith, length, length-append, inl, inr, Bool-cases, All,
}
use chttp.HeaderField.{HeaderField}
use chttp.Hpack.HuffmanCoder.{HuffmanCoder, IsHuffmanCoder}
use chttp.Hpack.Table
use chttp.Hpack.Table.{HpackTable}
use chttp.Hpack.Codec.{
  Hpack, encode_headers, encode_table_size_update, size_updates, decode_loop, decode, encode,
  clear_dirty, encode_header, encode_found, seen, size_max,
}
use chttp.Hpack.Codec.Fields.{IsWireField}
use chttp.Hpack.Codec.Literals.{size_update}
use chttp.Hpack.Codec.Sync.{IsSynced, encode_header-Reads}
use chttp.Hpack.Codec.RoundTrip.{decode_loop_step, step_nonempty, decode_loop-encode_headers}
use chttp.Hpack.Codec.Resize.{IsPaired, IsClean, IsOwing, keep_fitting_twice}
use chttp.Hpack.Table.Invariant.{IsTable, set_max_size-IsTable}
use chttp.Hpack.Table.Eviction.{keep_fitting, set_max_size-keep_fitting, insert-keep_fitting}

-- The decoder after a size update.
abbrev resized : Hpack → ℕ → Hpack
resized d n = record d { decode_table = Table.set_max_size d.decode_table n }

abbrev begun : Hpack → Hpack
begun d = record d { first_field = true }

-- The decoder `d` has read what stands before `rest`, and is now `next` with fuel enough.
record Gets (huffman : HuffmanCoder) (fuel : ℕ) (d next : Hpack) (block rest : List ℕ)
    : Type 0 where
  left : ℕ
  enough : length rest ≤ left
  runs : decode_loop huffman fuel d block [] ≡ decode_loop huffman left next rest []

IsSynced-clean : (e d : Hpack) → IsPaired e d → IsClean e d → IsSynced e.encode_table d.decode_table
IsSynced-clean e d p c = record {
  encoder_ok = p.encoder_ok;
  decoder_ok = p.decoder_ok;
  same_entries = c.same_entries;
  same_max = c.same_max;
  max_fits = p.max_fits;
}

IsSynced-dirty :
    (e d : Hpack) (t : Table.HpackTable)
    → IsPaired e d
    → IsOwing e d
    → IsTable t
    → keep_fitting e.encode_table.max_size t.entry_table
      ≡ keep_fitting e.encode_min_size d.decode_table.entry_table
    → IsSynced e.encode_table (Table.set_max_size t e.encode_table.max_size)
IsSynced-dirty e d t p dirty ok same =
    let n = e.encode_table.max_size in
    let (entries, max_is) = set_max_size-keep_fitting t n ok in
    record {
      encoder_ok = p.encoder_ok;
      decoder_ok = set_max_size-IsTable t n ok;
      same_entries = dirty.same_entries ∙ sym same ∙ sym entries;
      same_max = sym max_is;
      max_fits = p.max_fits;
    }

smaller : (m n : ℕ) → m ≤ n → min n m ≡ m
smaller m n h = omega arith

equal_bounds : (m n : ℕ) → m ≤ n → ltb m n ≡ false → n ≡ m
equal_bounds m n h f = ground arith

module _ (huffman : HuffmanCoder) where
  decode_update :
      (d : Hpack) (n : ℕ) (rest : List ℕ) (fuel : ℕ)
      → n < 2 ^ 63
      → n ≤ d.decode_table_limit
      → d.first_field ≡ true
      → length (encode_table_size_update n ++ rest) ≤ fuel
      → Gets huffman fuel d (resized d n) (encode_table_size_update n ++ rest) rest
  decode_update d n rest zero fits le first enough =
      let some_bytes =
        step_nonempty huffman d (encode_table_size_update n ++ rest) _ _ _
          (size_update huffman d n rest fits le first) in
      absurd (omega arith)
  decode_update d n rest (suc fuel) fits le first enough =
      let some_bytes =
        step_nonempty huffman d (encode_table_size_update n ++ []) _ _ _
          (size_update huffman d n [] fits le first) in
      record {
        left = fuel;
        enough = omega (
          arith,
          length-append (encode_table_size_update n) rest,
          length-append (encode_table_size_update n) [],
        );
        runs =
            decode_loop_step huffman fuel d (encode_table_size_update n ++ rest) [] none rest
              (resized d n) (size_update huffman d n rest fits le first);
      }

  decode_two :
      (d : Hpack) (m n : ℕ) (rest : List ℕ)
      → m < 2 ^ 63
      → n < 2 ^ 63
      → m ≤ d.decode_table_limit
      → n ≤ d.decode_table_limit
      → d.first_field ≡ true
      → Gets huffman
          (length ((encode_table_size_update m ++ encode_table_size_update n) ++ rest))
          d
          (resized (resized d m) n)
          ((encode_table_size_update m ++ encode_table_size_update n) ++ rest)
          rest
  decode_two d m n rest fits_m fits_n le_m le_n first =
      let later = encode_table_size_update n ++ rest in
      let one =
        decode_update d m later (length (encode_table_size_update m ++ later)) fits_m le_m first
          (omega arith) in
      let two = decode_update (resized d m) n rest one.left fits_n le_n first one.enough in
      rw append_assoc (record { left = two.left; enough = two.enough; runs = one.runs ∙ two.runs })

  -- The size updates of a block leave the decoder's table as the encoder's is.
  decode_updates :
      (e d : Hpack) (rest : List ℕ)
      → IsPaired e d
      → (next : Hpack) × Gets huffman
          (length (size_updates e ++ rest))
          (begun d)
          next
          (size_updates e ++ rest)
          rest
        × IsSynced e.encode_table next.decode_table
        × (next.decode_table_limit ≡ d.decode_table_limit)
  unfolding size_updates
  decode_updates e d rest p = elim p.updates [
    | inl c ↦ rw c.not_dirty (
      begun d,
      record { left = length rest; enough = omega arith; runs = refl },
      IsSynced-clean e d p c,
      refl,
    )
    | inr t ↦
        let n = e.encode_table.max_size in
        let m = e.encode_min_size in
        let small = t.min_le in
        rw t.dirty (elim (Bool-cases (ltb m n)) [
          | inr f ↦ rw f (
            resized (begun d) n,
            decode_update (begun d) n rest (length (encode_table_size_update n ++ rest))
                (omega (arith, p.max_fits)) p.within refl (omega arith),
            IsSynced-dirty e d d.decode_table p t p.decoder_ok
                (ap (λ k. keep_fitting k d.decode_table.entry_table) (equal_bounds m n small f)),
            refl,
          )
          | inl l ↦ rw l (
            resized (resized (begun d) m) n,
            decode_two (begun d) m n rest (omega (arith, p.max_fits)) (omega (arith, p.max_fits))
                (omega (arith, p.within)) p.within refl,
            IsSynced-dirty e d (Table.set_max_size d.decode_table m) p t
                (set_max_size-IsTable d.decode_table m p.decoder_ok)
                (rw (set_max_size-keep_fitting d.decode_table m p.decoder_ok).0 (
                  keep_fitting_twice n m d.decode_table.entry_table
                  ∙ ap (λ k. keep_fitting k d.decode_table.entry_table) (smaller m n small))),
            refl,
          )
        ])
  ]

module _ (huffman : HuffmanCoder) (law : IsHuffmanCoder huffman) where
  encode_header_max :
      (t : HpackTable) (f : HeaderField)
      → IsTable t
      → (encode_header huffman t f).1.max_size ≡ t.max_size
  unfolding encode_header encode_found
  encode_header_max t f ok = ground (arith, (insert-keep_fitting t f ok).1)

  encode_headers_max :
      (fs : List HeaderField) (t : HpackTable) (h : Hpack)
      → IsSynced t h.decode_table
      → All IsWireField fs
      → (encode_headers huffman t fs).1.max_size ≡ t.max_size
  unfolding encode_headers
  encode_headers_max [] t h v w = refl
  encode_headers_max (f ∷ fs) t h v (w, ws) =
      let r = encode_header-Reads huffman law t h f [] v w in
      encode_headers_max fs (encode_header huffman t f).1 (seen (some f) r.after) r.synced ws
      ∙ encode_header_max t f v.encoder_ok

  clear_dirty-clean : (e : Hpack) → (clear_dirty e).encode_table_dirty ≡ false
  unfolding clear_dirty
  clear_dirty-clean e = ground arith

  clear_dirty-min : (e d : Hpack) → IsPaired e d → (clear_dirty e).encode_min_size ≡ size_max
  unfolding clear_dirty
  clear_dirty-min e d p = elim p.updates [
    | inr o ↦ rw o.dirty refl
    | inl c ↦ rw c.not_dirty c.min_reset
  ]

  -- The fields that the encoder of one end writes are the fields that the decoder of the other end
  -- reads, in the same order and with the same sensitivity, whatever sizes were set in between, and
  -- the two ends are a pair again. It holds of every coder that decodes what it encodes, and of
  -- fields whose names and values are bytes, fewer than 2 ^ 32 of them.
  pub decode-encode_block :
      (e d : Hpack) (fs : List HeaderField)
      → IsPaired e d
      → All IsWireField fs
      → ((decode huffman d (encode huffman e fs).0).1 ≡ some fs)
        × IsPaired (encode huffman e fs).1 (decode huffman d (encode huffman e fs).0).0
  unfolding decode encode clear_dirty
  decode-encode_block e d fs p w =
      let bytes = (encode_headers huffman e.encode_table fs).0 in
      let (next, got, synced, limit) = decode_updates huffman e d bytes p in
      let r =
        decode_loop-encode_headers huffman law fs e.encode_table next got.left [] synced w
          got.enough in
      rw got.runs (
        r.fields,
        record {
          encoder_ok = r.synced.encoder_ok;
          decoder_ok = r.synced.decoder_ok;
          max_fits = r.synced.max_fits;
          within =
              rw (encode_headers_max fs e.encode_table next synced w, r.same_limit, limit) p.within;
          updates = inl (record {
            not_dirty = clear_dirty-clean e;
            min_reset = clear_dirty-min e d p;
            same_entries = r.synced.same_entries;
            same_max = r.synced.same_max;
          });
        },
      )
