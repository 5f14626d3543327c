-- ===== src/Hpack/Table.antt =====
-- class HpackTable (include/chttp2/hpack/table.hpp, src/hpack/table.cpp). An unordered_map is an
-- association list. The subtractions of the code do not wrap, which Hpack/Table/Invariant.antt
-- shows: the bytes are the sum of the entries' sizes, and ids are above the number of entries.
pub mod Static
pub mod Invariant
pub mod Lookup
pub mod Eviction
use chttp.Prelude.{
  ℕ, suc, ◌+◌, ◌-◌, ◌==◌, ltb, leb, List, [], ◌∷◌, ◌++◌, Option, none, some, Bool, true, false,
  ◌&&◌, ◌||◌, if◌then◌else◌, length, get_elem?, bytes_eq,
}
use chttp.Prelude.Map.{Map, lookup, assign, erase}
use chttp.HeaderField.{HeaderField, size}
use Static.{static_name_table, static_name_value_table, static_entry_table}

abbrev pub init_max_table_size : ℕ
init_max_table_size = 4096

pub record HpackTable : Type 0 where
  pub name_table : Map (List ℕ) ℕ
  pub name_value_table : Map (List ℕ × List ℕ) ℕ
  pub entry_table : List HeaderField
  pub max_size : ℕ
  pub next_id : ℕ
  pub dynamic_bytes : ℕ

abbrev pub empty : HpackTable
empty = record {
  name_table = [];
  name_value_table = [];
  entry_table = [];
  max_size = init_max_table_size;
  next_id = 1;
  dynamic_bytes = 0;
}

unfoldable pub pair_eq : List ℕ × List ℕ → List ℕ × List ℕ → Bool
pair_eq (a, b) (c, d) = bytes_eq a c && bytes_eq b d

unfoldable pub oldest_id : HpackTable → ℕ
oldest_id t = t.next_id - length t.entry_table

-- `none` is an entry that was evicted.
unfoldable pub id_to_index : HpackTable → ℕ → Option ℕ
id_to_index t id =
    if ltb id (oldest_id t) then none else some (length static_entry_table + (t.next_id - id))

-- The second and the fourth table of `find`: an id that is found and not evicted.
unfoldable pub live_index : HpackTable → Option ℕ → Option ℕ
live_index t none = none
live_index t (some id) = id_to_index t id

unfoldable pub exact_match : HpackTable → HeaderField → Option ℕ
exact_match t h = elim (lookup pair_eq (h.name, h.value) static_name_value_table) [
  | some index ↦ some index
  | none ↦ live_index t (lookup pair_eq (h.name, h.value) t.name_value_table)
]

unfoldable pub name_match : HpackTable → HeaderField → ℕ
name_match t h = elim (lookup bytes_eq h.name static_name_table) [
  | some index ↦ index
  | none ↦ elim (live_index t (lookup bytes_eq h.name t.name_table)) [
    | some index ↦ index
    | none ↦ 0
  ]
]

-- Whether name and value match, and the index: of the entry, of one with the name, or 0.
unfoldable pub find : HpackTable → HeaderField → Bool × ℕ
find t h = elim (if h.sensitivity then none else exact_match t h) [
  | some index ↦ (true, index)
  | none ↦ (false, name_match t h)
]

unfoldable pub add_entry : HpackTable → HeaderField → HpackTable
add_entry t h = record t {
  name_table = assign bytes_eq h.name t.next_id t.name_table;
  name_value_table = assign pair_eq (h.name, h.value) t.next_id t.name_value_table;
  entry_table = t.entry_table ++ h ∷ [];
  next_id = suc t.next_id;
}

-- `erase` of a key, if it is there with this id.
unfoldable pub erase_id : {K : Type 0} → (K → K → Bool) → K → ℕ → Map K ℕ → Map K ℕ
erase_id eq k id m = elim (lookup eq k m) [
  | none ↦ m
  | some id' ↦ if id' == id then erase eq k m else m
]

-- One round of the loop of `evict`.
unfoldable pub forget : ℕ → HeaderField → HpackTable → HpackTable
unfolding erase_id
forget id h t = record t {
  dynamic_bytes = t.dynamic_bytes - size h;
  name_table = erase_id bytes_eq h.name id t.name_table;
  name_value_table = erase_id pair_eq (h.name, h.value) id t.name_value_table;
}

-- The entries that the loop has not reached, the first of them with the id `id`.
unfoldable pub evict_loop : ℕ → List HeaderField → HpackTable → HpackTable
evict_loop id [] t = record t { entry_table = [] }
evict_loop id (h ∷ entries) t =
    let evicted = evict_loop (suc id) entries (forget id h t) in
    if ltb t.max_size t.dynamic_bytes then evicted else record t { entry_table = h ∷ entries }

unfoldable pub evict : HpackTable → HpackTable
unfolding evict_loop
evict t = evict_loop (oldest_id t) t.entry_table t

unfoldable pub insert : HpackTable → HeaderField → HpackTable
unfolding add_entry
insert t h =
    let t' = add_entry t h in evict (record t' { dynamic_bytes = t'.dynamic_bytes + size h })

unfoldable pub set_max_size : HpackTable → ℕ → HpackTable
set_max_size t n = evict (record t { max_size = n })

-- `none` is an index that is 0 or past the last entry.
unfoldable pub at : HpackTable → ℕ → Option HeaderField
at t index =
    if index == 0
    then none
    else if leb index (length static_entry_table)
    then get_elem? static_entry_table (index - 1)
    else let dynamic_idx = index - length static_entry_table in
      if dynamic_idx == 0 || ltb (length t.entry_table) dynamic_idx
      then none
      else get_elem? t.entry_table (length t.entry_table - dynamic_idx)
