-- ===== src/Hpack/Table/Invariant.antt =====
-- What every HpackTable satisfies (src/hpack/table.cpp): the bytes are counted, and the two lookup
-- tables point at entries that are there.
use chttp.Prelude.{
  ℕ, suc, ◌+◌, ◌-◌, ◌≤◌, ◌<◌, ◌≡◌, ◌↔◌, refl, sym, List, [], ◌∷◌, ◌++◌, some, Bool, true, false,
  arith, length, get_elem?, get_elem?-append_last, get_elem?-append_some, All, All-append,
  length-append, ltb, bytes_eq, bytes_eq_iff, inl, inr, Bool-cases,
}
use chttp.Prelude.Map.{Map, lookup, assign, lookup-assign, lookup-erase}
use chttp.HeaderField.{HeaderField, size}
use chttp.Hpack.Table.{
  HpackTable, pair_eq, oldest_id, add_entry, erase_id, forget, evict_loop, evict, insert,
  set_max_size, empty,
}

unfoldable pub total : List HeaderField → ℕ
total [] = 0
total (h ∷ entries) = size h + total entries

pub total-append : (xs ys : List HeaderField) → total (xs ++ ys) ≡ total xs + total ys
unfolding total
total-append [] ys = omega arith
total-append (x ∷ xs) ys = omega (arith, total-append xs ys)

pub pair_eq_iff : (a b : List ℕ × List ℕ) → (pair_eq a b ≡ true) ↔ (a ≡ b)
unfolding pair_eq
pair_eq_iff (a, b) (c, d) = ground (arith, bytes_eq_iff a c, bytes_eq_iff b d)

-- The id `id` of the key `k` was given out, and its entry, if `first` is the oldest id, has the key.
pub record Points {K : Type 0} (key : HeaderField → K) (first next : ℕ) (entries : List HeaderField)
    (k : K) (id : ℕ) : Type 0 where
  pub given : id < next
  pub entry :
      first ≤ id → (e : HeaderField) × (get_elem? entries (id - first) ≡ some e) × (key e ≡ k)

pub record Indexed {K : Type 0} (key : HeaderField → K) (eq : K → K → Bool) (first next : ℕ)
    (entries : List HeaderField) (m : Map K ℕ) : Type 0 where
  pub points : (k : K) (id : ℕ) → lookup eq k m ≡ some id → Points key first next entries k id

abbrev pub name_value : HeaderField → List ℕ × List ℕ
name_value h = (h.name, h.value)

abbrev pub name_of : HeaderField → List ℕ
name_of h = h.name

abbrev pub IsPlain : HeaderField → Type 0
IsPlain h = h.sensitivity ≡ false

-- A table whose entries are `entries`, the first of them with the id `first`.
pub record Indexes (first : ℕ) (entries : List HeaderField) (t : HpackTable) : Type 0 where
  pub ids : first + length entries ≡ t.next_id
  pub positive : 0 < first
  pub counted : t.dynamic_bytes ≡ total entries
  pub plain : All IsPlain entries
  pub names : Indexed name_of bytes_eq first t.next_id entries t.name_table
  pub name_values : Indexed name_value pair_eq first t.next_id entries t.name_value_table

pub record IsTable (t : HpackTable) : Type 0 where
  pub indexes : Indexes (oldest_id t) t.entry_table t
  pub fits : t.dynamic_bytes ≤ t.max_size

module _ {K : Type 0} (key : HeaderField → K) (eq : K → K → Bool)
    (eq_iff : (a b : K) → (eq a b ≡ true) ↔ (a ≡ b)) where
  -- Erasing a key only loses ids.
  lookup-erase_id :
      (k j : K) (id : ℕ) (m : Map K ℕ) (i : ℕ)
      → lookup eq j (erase_id eq k id m) ≡ some i
      → lookup eq j m ≡ some i
  unfolding erase_id
  lookup-erase_id k j id m i e = ground (arith, lookup-erase eq eq_iff k j m)

  Points-tail :
      (first next : ℕ) (h : HeaderField) (entries : List HeaderField) (k : K) (i : ℕ)
      → Points key first next (h ∷ entries) k i
      → Points key (suc first) next entries k i
  Points-tail first next h entries k i p = record {
    given = p.given;
    entry = λ le.
        let (e, at_i, has) = p.entry (omega arith) in
        let shift : i - first ≡ suc (i - suc first) = omega arith in (e, rw shift at at_i, has);
  }

  Indexed-forget :
      (first next : ℕ) (h : HeaderField) (entries : List HeaderField) (k : K) (m : Map K ℕ)
      → Indexed key eq first next (h ∷ entries) m
      → Indexed key eq (suc first) next entries (erase_id eq k first m)
  Indexed-forget first next h entries k m x = record {
    points = λ j i e.
        Points-tail first next h entries j i (x.points j i (lookup-erase_id k j first m i e));
  }

  Indexed-add :
      (first next : ℕ) (entries : List HeaderField) (h : HeaderField) (m : Map K ℕ)
      → first + length entries ≡ next
      → Indexed key eq first next entries m
      → Indexed key eq first (suc next) (entries ++ h ∷ []) (assign eq (key h) next m)
  Indexed-add first next entries h m ids x = record { points = points }
    where
      new : (j : K) → key h ≡ j → Points key first (suc next) (entries ++ h ∷ []) j next
      new j same = record {
        given = omega arith;
        entry = λ le.
            let last : next - first ≡ length entries = omega arith in
            (h, rw last (get_elem?-append_last entries h), same);
      }

      old :
          (j : K) (i : ℕ)
          → Points key first next entries j i
          → Points key first (suc next) (entries ++ h ∷ []) j i
      old j i p = record {
        given = omega (arith, p.given);
        entry = λ le.
            let (e, at_i, has) = p.entry le in
            (e, get_elem?-append_some entries (h ∷ []) (i - first) e at_i, has);
      }

      points :
          (j : K) (i : ℕ)
          → lookup eq j (assign eq (key h) next m) ≡ some i
          → Points key first (suc next) (entries ++ h ∷ []) j i
      points j i e = elim (Bool-cases (eq (key h) j)) [
        | inl t ↦
            let is_next : next ≡ i = cc (sym e, lookup-assign eq eq_iff (key h) j next m, t) in
            rw (← is_next) (new j ((eq_iff (key h) j).0 t))
        | inr f ↦ old j i (x.points j i (rw (lookup-assign eq eq_iff (key h) j next m, f) at e))
      ]

forget-Indexes :
    (first : ℕ) (h : HeaderField) (entries : List HeaderField) (t : HpackTable)
    → Indexes first (h ∷ entries) t
    → Indexes (suc first) entries (forget first h t)
unfolding forget total
forget-Indexes first h entries t x = record {
  ids = omega (arith, x.ids);
  positive = omega arith;
  counted = omega (arith, x.counted);
  plain = x.plain.1;
  names =
      Indexed-forget name_of bytes_eq bytes_eq_iff first t.next_id h entries h.name t.name_table
        x.names;
  name_values =
      Indexed-forget name_value pair_eq pair_eq_iff first t.next_id h entries (h.name, h.value)
        t.name_value_table x.name_values;
}

IsTable-of_Indexes :
    (first : ℕ) (entries : List HeaderField) (t : HpackTable)
    → Indexes first entries t
    → t.dynamic_bytes ≤ t.max_size
    → IsTable (record t { entry_table = entries })
unfolding oldest_id
IsTable-of_Indexes first entries t x fits = record {
  indexes =
      let e : t.next_id - length entries ≡ first = omega (arith, x.ids) in
      rw e (record {
        ids = x.ids;
        positive = x.positive;
        counted = x.counted;
        plain = x.plain;
        names = x.names;
        name_values = x.name_values;
      });
  fits = fits;
}

evict_loop-IsTable :
    (first : ℕ) (entries : List HeaderField) (t : HpackTable)
    → Indexes first entries t
    → IsTable (evict_loop first entries t)
unfolding evict_loop
evict_loop-IsTable first [] t x =
    IsTable-of_Indexes first [] t x (unfold total in omega (arith, x.counted))
evict_loop-IsTable first (h ∷ entries) t x = elim (Bool-cases (ltb t.max_size t.dynamic_bytes)) [
  | inl over ↦ rw over (
      evict_loop-IsTable (suc first) entries (forget first h t)
        (forget-Indexes first h entries t x))
  | inr under ↦ rw under (IsTable-of_Indexes first (h ∷ entries) t x (ground arith))
]

add_entry-Indexes :
    (t : HpackTable) (h : HeaderField)
    → h.sensitivity ≡ false
    → IsTable t
    → Indexes
        (oldest_id t)
        (t.entry_table ++ h ∷ [])
        (record (add_entry t h) { dynamic_bytes = t.dynamic_bytes + size h })
unfolding add_entry total
add_entry-Indexes t h safe v = record {
  ids = omega (arith, x.ids, length-append t.entry_table (h ∷ []));
  positive = x.positive;
  counted = omega (arith, x.counted, total-append t.entry_table (h ∷ []));
  plain = All-append IsPlain t.entry_table (h ∷ []) x.plain (safe, tt);
  names =
      Indexed-add name_of bytes_eq bytes_eq_iff (oldest_id t) t.next_id t.entry_table h t.name_table
        x.ids x.names;
  name_values =
      Indexed-add name_value pair_eq pair_eq_iff (oldest_id t) t.next_id t.entry_table h
        t.name_value_table x.ids x.name_values;
}
  where
    x : Indexes (oldest_id t) t.entry_table t
    x = v.indexes

evict-IsTable :
    (t : HpackTable) (first : ℕ)
    → first ≡ oldest_id t
    → Indexes first t.entry_table t
    → IsTable (evict t)
unfolding evict
evict-IsTable t first e x = rw (← e) (evict_loop-IsTable first t.entry_table t x)

-- Inserting a field that is not sensitive keeps the table: its bytes are the sum of its entries'
-- sizes and at most the maximum, and every id of the lookup tables that is not evicted leads to an
-- entry with that name, or that name and value.
pub insert-IsTable :
    (t : HpackTable) (h : HeaderField) → h.sensitivity ≡ false → IsTable t → IsTable (insert t h)
unfolding insert oldest_id add_entry
insert-IsTable t h safe v =
    evict-IsTable (record (add_entry t h) { dynamic_bytes = t.dynamic_bytes + size h })
      (oldest_id t) (omega (arith, v.indexes.ids, length-append t.entry_table (h ∷ [])))
      (add_entry-Indexes t h safe v)

-- So does changing the maximum size, down or up.
pub set_max_size-IsTable : (t : HpackTable) (n : ℕ) → IsTable t → IsTable (set_max_size t n)
unfolding set_max_size oldest_id
set_max_size-IsTable t n v =
    evict-IsTable (record t { max_size = n }) (oldest_id t) refl
      (record {
        ids = v.indexes.ids;
        positive = v.indexes.positive;
        counted = v.indexes.counted;
        plain = v.indexes.plain;
        names = v.indexes.names;
        name_values = v.indexes.name_values;
      })

Indexed-nil : {K : Type 0} (key : HeaderField → K) (eq : K → K → Bool) → Indexed key eq 1 1 [] []
unfolding lookup
Indexed-nil key eq = record { points = λ k id e. cc }

pub IsTable-empty : IsTable empty
unfolding oldest_id total
IsTable-empty = record {
  indexes = record {
    ids = omega arith;
    positive = omega arith;
    counted = refl;
    plain = tt;
    names = Indexed-nil name_of bytes_eq;
    name_values = Indexed-nil name_value pair_eq;
  };
  fits = omega arith;
}
