-- ===== src/Hpack/Table/Eviction.antt =====
-- Eviction in HpackTable (src/hpack/table.cpp) keeps the newest entries that fit (RFC 7541,
-- sections 4.3 and 4.4).
use chttp.Prelude.{ℕ, suc, ◌≡◌, refl, List, [], ◌∷◌, ◌++◌, arith, leb, if◌then◌else◌}
use chttp.HeaderField.{HeaderField}
use chttp.Hpack.Table.{HpackTable, add_entry, forget, evict_loop, evict, insert, set_max_size}
use chttp.Hpack.Table.Invariant.{IsTable, total, total-append}

-- The longest rest of the entries, oldest first, whose sizes add up to at most `limit`.
unfoldable pub keep_fitting : ℕ → List HeaderField → List HeaderField
keep_fitting limit [] = []
keep_fitting limit (h ∷ entries) =
    let rest = keep_fitting limit entries in
    if leb (total (h ∷ entries)) limit then h ∷ entries else rest

evict_loop-keep_fitting :
    (id : ℕ) (entries : List HeaderField) (t : HpackTable)
    → t.dynamic_bytes ≡ total entries
    → ((evict_loop id entries t).entry_table ≡ keep_fitting t.max_size entries)
      × ((evict_loop id entries t).max_size ≡ t.max_size)
unfolding evict_loop keep_fitting forget total
evict_loop-keep_fitting id [] t e = (refl, refl)
evict_loop-keep_fitting id (h ∷ entries) t e =
    ground (arith, evict_loop-keep_fitting (suc id) entries (forget id h t))

-- Inserting into a well-formed table leaves, of its entries and the new one, the newest that fit;
-- the maximum stays.
pub insert-keep_fitting :
    (t : HpackTable) (h : HeaderField)
    → IsTable t
    → ((insert t h).entry_table ≡ keep_fitting t.max_size (t.entry_table ++ h ∷ []))
      × ((insert t h).max_size ≡ t.max_size)
unfolding insert evict add_entry total
insert-keep_fitting t h v =
    evict_loop-keep_fitting _ (t.entry_table ++ h ∷ []) _
      (omega (arith, v.indexes.counted, total-append t.entry_table (h ∷ [])))

-- Changing the maximum of a well-formed table leaves the newest entries that fit it.
pub set_max_size-keep_fitting :
    (t : HpackTable) (n : ℕ)
    → IsTable t
    → ((set_max_size t n).entry_table ≡ keep_fitting n t.entry_table)
      × ((set_max_size t n).max_size ≡ n)
unfolding set_max_size evict
set_max_size-keep_fitting t n v =
    evict_loop-keep_fitting _ t.entry_table (record t { max_size = n }) v.indexes.counted
