-- ===== src/Examples/Hpack.antt =====
-- Concrete header fields and tables, with the coder that leaves strings as they are
-- (src/hpack/table.cpp, src/hpack/hpack.cpp).
use chttp.Prelude.{
  [], ◌∷◌, ◌++◌, ◌≡◌, ◌⊎◌, ◌*◌, ◌^◌, inl, some, true, false, arith, refl, codes, length, bytes_eq,
}
use chttp.Prelude.Map.{lookup, assign}
use chttp.Hpack.Table.Static.{static_name_value_table, static_entry_table}
use chttp.HeaderField.{HeaderField, field, size}
use chttp.Hpack.HuffmanCoder.{HuffmanCoder, IsHuffmanCoder}
use chttp.Hpack.Table
use chttp.Hpack.Table.{HpackTable, find, at, insert}
use chttp.Hpack.Table.Invariant.{IsTable, IsTable-empty, insert-IsTable}
use chttp.Hpack.Table.Lookup.{at-find}
use chttp.Hpack.Table.Eviction.{keep_fitting, insert-keep_fitting}
use chttp.Hpack.VInt.{encode_vint, decode_vint}
use chttp.Hpack.VInt.RoundTrip.{add_first, decode_vint-encode_vint}
use chttp.Hpack.Codec.{initial, encode, decode, set_encode_table_size}
use chttp.Hpack.Codec.Fields.{IsWireField}
use chttp.Hpack.Codec.Resize.{IsPaired, set_encode_table_size-IsPaired}
use chttp.Hpack.Codec.Block.{decode-encode_block}

abbrev pub plain_coder : HuffmanCoder
plain_coder = record { encoded_length = λ s. length s; encode = λ s. s; decode = λ s. some s }

plain_coder-IsHuffmanCoder : IsHuffmanCoder plain_coder
plain_coder-IsHuffmanCoder = record { length-encode = λ s b. refl; decode-encode = λ s b. refl }

abbrev agent : HeaderField
agent = field (codes "ua") (codes "x")

agent-IsWireField : IsWireField agent
agent-IsWireField = record {
  name_bytes = (omega arith, (omega arith, tt));
  value_bytes = (omega arith, tt);
  name_fits = omega arith;
  value_fits = omega arith;
}

decode_vint-encode_vint_example :
    decode_vint (add_first (4 * 2 ^ 5) (encode_vint 5 1337) ++ (9 ∷ [])) 5 ≡ some (1337, 9 ∷ [])
decode_vint-encode_vint_example =
    decode_vint-encode_vint 5 1337 4 (9 ∷ []) (omega arith) (omega arith) (omega arith)

insert-IsTable-agent : IsTable (insert Table.empty agent)
insert-IsTable-agent = insert-IsTable Table.empty agent refl IsTable-empty

insert-IsTable_example : IsTable (insert Table.empty agent)
insert-IsTable_example = insert-IsTable Table.empty agent refl IsTable-empty

find-insert-agent : find (insert Table.empty agent) agent ≡ (true, 62)
unfolding find Table.exact_match lookup static_name_value_table Table.pair_eq bytes_eq
    Table.live_index insert Table.evict size assign Table.id_to_index Table.oldest_id
    static_entry_table
find-insert-agent = refl

at-find_example :
    (e : HeaderField) × (at (insert Table.empty agent) 62 ≡ some e)
    × (e.name ≡ agent.name)
    × ((true ≡ false) ⊎ (e.value ≡ agent.value))
    × (e.sensitivity ≡ false)
unfolding find
at-find_example =
    at-find (insert Table.empty agent) agent true 62 insert-IsTable-agent find-insert-agent
      (omega arith)

insert-keep_fitting_example :
    ((insert Table.empty agent).entry_table
      ≡ keep_fitting Table.empty.max_size (Table.empty.entry_table ++ agent ∷ []))
    × ((insert Table.empty agent).max_size ≡ Table.empty.max_size)
insert-keep_fitting_example = insert-keep_fitting Table.empty agent IsTable-empty

initial-IsPaired : IsPaired initial initial
initial-IsPaired = record {
  encoder_ok = IsTable-empty;
  decoder_ok = IsTable-empty;
  max_fits = omega arith;
  within = omega arith;
  updates =
      inl (record { not_dirty = refl; min_reset = refl; same_entries = refl; same_max = refl });
}

set_encode_table_size-IsPaired_example : IsPaired (set_encode_table_size initial 0) initial
set_encode_table_size-IsPaired_example =
    set_encode_table_size-IsPaired initial initial 0 (omega arith) (omega arith) initial-IsPaired

decode-encode_block_example :
    ((decode plain_coder initial (encode plain_coder initial (agent ∷ agent ∷ [])).0).1
      ≡ some (agent ∷ agent ∷ []))
    × IsPaired
        (encode plain_coder initial (agent ∷ agent ∷ [])).1
        (decode plain_coder initial (encode plain_coder initial (agent ∷ agent ∷ [])).0).0
decode-encode_block_example =
    decode-encode_block plain_coder plain_coder-IsHuffmanCoder initial initial (agent ∷ agent ∷ [])
      initial-IsPaired (agent-IsWireField, (agent-IsWireField, tt))
