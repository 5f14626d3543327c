-- ===== src/Hpack/Codec/Sync.antt =====
-- The encoder's table at one end and the decoder's at the other (src/hpack/hpack.cpp) stay the same.
use chttp.Prelude.{
  ℕ, zero, suc, ◌+◌, ◌^◌, ◌<◌, ◌≤◌, ◌≡◌, ◌≢◌, refl, sym, ap, ◌∙◌, List, [], ◌∷◌, ◌++◌, some, Bool,
  true, false, arith, inl, inr, Bool-cases, length,
}
use chttp.HeaderField.{HeaderField, size}
use chttp.Hpack.HuffmanCoder.{HuffmanCoder, IsHuffmanCoder}
use chttp.Hpack.Table.{HpackTable, find, at, insert}
use chttp.Hpack.Table.Static.{static_entry_table}
use chttp.Hpack.Table.Invariant.{IsTable, total, insert-IsTable}
use chttp.Hpack.Table.Lookup.{Finds, find-Finds}
use chttp.Hpack.Table.Eviction.{insert-keep_fitting}
use chttp.Hpack.Codec.{
  Hpack, could_index, encode_indexed_header, encode_index_literal_header,
  encode_un_index_literal_header, encode_never_index_literal_header, encode_found, encode_header,
  decode_header,
}
use chttp.Hpack.Codec.Fields.{IsWireField, Names}
use chttp.Hpack.Codec.Literals.{incremental, never, literal, indexed}

-- Both tables are well formed, and hold the same entries under the same maximum, a uint32_t.
pub record IsSynced (encoder decoder : HpackTable) : Type 0 where
  pub encoder_ok : IsTable encoder
  pub decoder_ok : IsTable decoder
  pub same_entries : encoder.entry_table ≡ decoder.entry_table
  pub same_max : encoder.max_size ≡ decoder.max_size
  pub max_fits : encoder.max_size < 2 ^ 32

pub insert-IsSynced :
    (t u : HpackTable) (f : HeaderField)
    → f.sensitivity ≡ false
    → IsSynced t u
    → IsSynced (insert t f) (insert u f)
insert-IsSynced t u f s v =
    let (te, tm) = insert-keep_fitting t f v.encoder_ok in
    let (ue, um) = insert-keep_fitting u f v.decoder_ok in
    record {
      encoder_ok = insert-IsTable t f s v.encoder_ok;
      decoder_ok = insert-IsTable u f s v.decoder_ok;
      same_entries = te ∙ rw (v.same_entries, v.same_max) (sym ue);
      same_max = tm ∙ v.same_max ∙ sym um;
      max_fits = rw tm v.max_fits;
    }

at_same : (t u : HpackTable) (index : ℕ) → t.entry_table ≡ u.entry_table → at t index ≡ at u index
unfolding at
at_same t u index e = rw e

length-le-total : (entries : List HeaderField) → length entries ≤ total entries
unfolding total size
length-le-total [] = omega arith
length-le-total (h ∷ entries) = omega (arith, length-le-total entries)

at_bound :
    (t : HpackTable) (index : ℕ) (e : HeaderField)
    → at t index ≡ some e
    → (0 < index) × (index ≤ length static_entry_table + length t.entry_table)
unfolding at
at_bound t index e h = ground arith

length-static : length static_entry_table ≡ 61
unfolding static_entry_table
length-static = refl

index_fits :
    (t : HpackTable) (index : ℕ) (e : HeaderField)
    → IsTable t
    → t.max_size < 2 ^ 32
    → at t index ≡ some e
    → (index ≢ 0) × (index < 2 ^ 63)
index_fits t index e v m h = omega (
  arith,
  at_bound t index e h,
  length-static,
  length-le-total t.entry_table,
  v.indexes.counted,
  v.fits,
)

same_field :
    (e f : HeaderField)
    → e.name ≡ f.name
    → e.value ≡ f.value
    → e.sensitivity ≡ f.sensitivity
    → e ≡ f
same_field e f p q r = λ i. record { name = p i; value = q i; sensitivity = r i }

-- What the encoder found names the field for the decoder too, at an index that fits.
abbrev Usable : Hpack → HeaderField → ℕ → Type 0
Usable h f index = Names h index f.name × (index < 2 ^ 63)

module _ (t : HpackTable) (h : Hpack) (f : HeaderField) (v : IsSynced t h.decode_table) where
  Hits-Usable :
      (e : HeaderField) (index : ℕ) → at t index ≡ some e → e.name ≡ f.name → Usable h f index
  Hits-Usable e index found same =
      let (pos, fits) = index_fits t index e v.encoder_ok v.max_fits found in
      let there : at h.decode_table index ≡ some e =
        sym (at_same t h.decode_table index v.same_entries) ∙ found in
      (inr (e, there, same, pos), fits)

  Finds-Usable : (exact : Bool) (index : ℕ) → Finds t f (exact, index) → Usable h f index
  Finds-Usable true index r = Hits-Usable r.entry index r.found (ap (λ p. p.0) r.has_key)
  Finds-Usable false zero r = (inl refl, omega arith)
  Finds-Usable false (suc index) r =
      let there = r (omega arith) in Hits-Usable there.entry (suc index) there.found there.has_key

  exact_there :
      (index : ℕ)
      → f.sensitivity ≡ false
      → Finds t f (true, index)
      → at h.decode_table index ≡ some f
  exact_there index s r =
      let same : r.entry ≡ f =
        same_field r.entry f (ap (λ p. p.0) r.has_key) (ap (λ p. p.1) r.has_key)
          (r.plain ∙ sym s) in
      sym (at_same t h.decode_table index v.same_entries) ∙ rw (← same) r.found

-- The decoder reads the field `f` from the front of the bytes, and the tables stay synced.
pub record Reads (huffman : HuffmanCoder) (h : Hpack) (f : HeaderField)
    (written : List ℕ × HpackTable) (rest : List ℕ) : Type 0 where
  pub after : Hpack
  pub reads : decode_header huffman h (written.0 ++ rest) ≡ some (some f, rest, after)
  pub synced : IsSynced written.1 after.decode_table
  pub same_limit : after.decode_table_limit ≡ h.decode_table_limit

-- The branches of `encode_found`.
module _ (huffman : HuffmanCoder) (t : HpackTable) (f : HeaderField) (index : ℕ) where
  found_sensitive :
      (exact : Bool)
      → f.sensitivity ≡ true
      → encode_found huffman t f (exact, index)
        ≡ (encode_never_index_literal_header huffman index f, t)
  unfolding encode_found
  found_sensitive exact s = simp s

  found_exact :
      f.sensitivity ≡ false
      → encode_found huffman t f (true, index) ≡ (encode_indexed_header index, t)
  unfolding encode_found
  found_exact s = simp s

  found_new :
      f.sensitivity ≡ false
      → could_index t f ≡ true
      → encode_found huffman t f (false, index)
        ≡ (encode_index_literal_header huffman index f, insert t f)
  unfolding encode_found
  found_new s c = simp (s, c)

  found_large :
      f.sensitivity ≡ false
      → could_index t f ≡ false
      → encode_found huffman t f (false, index)
        ≡ (encode_un_index_literal_header huffman index f, t)
  unfolding encode_found
  found_large s c = simp (s, c)

module _ (huffman : HuffmanCoder) (law : IsHuffmanCoder huffman) where
  plain-Reads :
      (t : HpackTable) (h : Hpack) (f : HeaderField) (exact : Bool) (index : ℕ) (rest : List ℕ)
      → IsSynced t h.decode_table
      → IsWireField f
      → Finds t f (exact, index)
      → f.sensitivity ≡ false
      → Reads huffman h f (encode_found huffman t f (exact, index)) rest
  plain-Reads t h f true index rest v w r s =
      let (_, fits) = Finds-Usable t h f v true index r in
      rw (found_exact huffman t f index s) (record {
        after = h;
        reads = indexed huffman h f index rest fits (exact_there t h f v index s r);
        synced = v;
        same_limit = refl;
      })
  plain-Reads t h f false index rest v w r s =
      let (named, fits) = Finds-Usable t h f v false index r in
      elim (Bool-cases (could_index t f)) [
        | inl c ↦ rw (found_new huffman t f index s c) (record {
          after = record h { decode_table = insert h.decode_table f };
          reads = incremental huffman law h f index rest fits w named s;
          synced = insert-IsSynced t h.decode_table f s v;
          same_limit = refl;
        })
        | inr c ↦ rw (found_large huffman t f index s c) (record {
          after = h;
          reads = literal huffman law h f index rest fits w named s;
          synced = v;
          same_limit = refl;
        })
      ]

  found-Reads :
      (t : HpackTable) (h : Hpack) (f : HeaderField) (exact : Bool) (index : ℕ) (rest : List ℕ)
      → IsSynced t h.decode_table
      → IsWireField f
      → Finds t f (exact, index)
      → Reads huffman h f (encode_found huffman t f (exact, index)) rest
  found-Reads t h f exact index rest v w r = elim (Bool-cases f.sensitivity) [
    | inr s ↦ plain-Reads t h f exact index rest v w r s
    | inl s ↦
        let (named, fits) = Finds-Usable t h f v exact index r in
        rw (found_sensitive huffman t f index exact s) (record {
          after = h;
          reads = never huffman law h f index rest fits w named s;
          synced = v;
          same_limit = refl;
        })
  ]

  -- With the tables synced, the decoder reads back a field that the encoder wrote, and the tables
  -- are synced again.
  pub encode_header-Reads :
      (t : HpackTable) (h : Hpack) (f : HeaderField) (rest : List ℕ)
      → IsSynced t h.decode_table
      → IsWireField f
      → Reads huffman h f (encode_header huffman t f) rest
  unfolding encode_header
  encode_header-Reads t h f rest v w =
      let (exact, index) = find t f in
      found-Reads t h f exact index rest v w (find-Finds t f v.encoder_ok)
