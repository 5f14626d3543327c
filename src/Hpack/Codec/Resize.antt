-- ===== src/Hpack/Codec/Resize.antt =====
-- Changes of the encoder's table size between header blocks (Hpack::setEncodeTableSize and the
-- beginning of Hpack::encode, src/hpack/hpack.cpp).
use chttp.Prelude.{
  ◌⊎◌, ℕ, ◌^◌, ◌≤◌, ◌<◌, ◌≡◌, min, refl, sym, ap, ◌∙◌, List, [], ◌∷◌, true, false, arith, inl, inr,
}
use chttp.HeaderField.{HeaderField}
use chttp.Hpack.Table.Invariant.{IsTable, total, set_max_size-IsTable}
use chttp.Hpack.Table.Eviction.{keep_fitting, set_max_size-keep_fitting}
use chttp.Hpack.Codec.{Hpack, size_max, set_encode_table_size}

keep_fitting_all : (n : ℕ) (xs : List HeaderField) → total xs ≤ n → keep_fitting n xs ≡ xs
unfolding keep_fitting total
keep_fitting_all n [] h = refl
keep_fitting_all n (x ∷ xs) h = ground arith

pub keep_fitting_twice :
    (a b : ℕ) (xs : List HeaderField)
    → keep_fitting a (keep_fitting b xs) ≡ keep_fitting (min a b) xs
unfolding keep_fitting total
keep_fitting_twice a b [] = refl
keep_fitting_twice a b (x ∷ xs) = ground (arith, keep_fitting_twice a b xs, keep_fitting_all b xs)

min-size_max : (n : ℕ) → n < 2 ^ 32 → min n size_max ≡ n
min-size_max n h = omega arith

-- The encoder owes no size update, and the tables are the same.
pub record IsClean (e d : Hpack) : Type 0 where
  pub not_dirty : e.encode_table_dirty ≡ false
  pub min_reset : e.encode_min_size ≡ size_max
  pub same_entries : e.encode_table.entry_table ≡ d.decode_table.entry_table
  pub same_max : e.encode_table.max_size ≡ d.decode_table.max_size

-- The encoder owes size updates: its entries are those of the decoder that fit the smallest size
-- that it had since the last block.
pub record IsOwing (e d : Hpack) : Type 0 where
  pub dirty : e.encode_table_dirty ≡ true
  pub same_entries :
      e.encode_table.entry_table ≡ keep_fitting e.encode_min_size d.decode_table.entry_table
  pub min_le : e.encode_min_size ≤ e.encode_table.max_size

-- The encoder of one end and the decoder of the other, between two header blocks.
pub record IsPaired (e d : Hpack) : Type 0 where
  pub encoder_ok : IsTable e.encode_table
  pub decoder_ok : IsTable d.decode_table
  pub max_fits : e.encode_table.max_size < 2 ^ 32
  pub within : e.encode_table.max_size ≤ d.decode_table_limit
  pub updates : IsClean e d ⊎ IsOwing e d

entries_kept :
    (e d : Hpack) (n : ℕ)
    → n < 2 ^ 32
    → IsPaired e d
    → keep_fitting n e.encode_table.entry_table
      ≡ keep_fitting (min n e.encode_min_size) d.decode_table.entry_table
entries_kept e d n fits p = elim p.updates [
  | inr o ↦ rw o.same_entries (keep_fitting_twice n e.encode_min_size d.decode_table.entry_table)
  | inl c ↦
      rw (sym c.same_entries, c.min_reset)
        (ap (λ m. keep_fitting m e.encode_table.entry_table) (sym (min-size_max n fits)))
]

-- The peer may announce any number of sizes within the decoder's limit between two blocks.
pub set_encode_table_size-IsPaired :
    (e d : Hpack) (n : ℕ)
    → n < 2 ^ 32
    → n ≤ d.decode_table_limit
    → IsPaired e d
    → IsPaired (set_encode_table_size e n) d
unfolding set_encode_table_size
set_encode_table_size-IsPaired e d n fits le p =
    let (entries, max_is) = set_max_size-keep_fitting e.encode_table n p.encoder_ok in
    record {
      encoder_ok = set_max_size-IsTable e.encode_table n p.encoder_ok;
      decoder_ok = p.decoder_ok;
      max_fits = rw max_is fits;
      within = rw max_is le;
      updates = inr (record {
        dirty = refl;
        same_entries = entries ∙ entries_kept e d n fits p;
        min_le = rw max_is (omega arith);
      });
    }
