-- ===== src/Hpack/Table/Lookup.antt =====
-- An index that HpackTable::find gives leads HpackTable::at to an entry that matches
-- (src/hpack/table.cpp).
use chttp.Prelude.{
  ℕ, ◌+◌, ◌-◌, ◌≤◌, ◌<◌, ◌≡◌, ◌↔◌, ◌≢◌, ◌⊎◌, refl, sym, ap, subst, [], ◌∷◌, Option, none, some,
  Bool, true, false, arith, length, get_elem?, All, All-get_elem?, leb, bytes_eq, bytes_eq_iff,
  if◌then◌else◌, inl, inr, Bool-cases, Option-cases, ◌&&◌, not,
}
use chttp.Prelude.Map.{Map, lookup, lookup-All}
use chttp.HeaderField.{HeaderField}
use chttp.Hpack.Table.Static.{static_name_table, static_name_value_table, static_entry_table}
use chttp.Hpack.Table.{
  HpackTable, pair_eq, oldest_id, id_to_index, live_index, exact_match, name_match, find, at,
}
use chttp.Hpack.Table.Invariant.{IsTable, Indexed, IsPlain, name_of, name_value, pair_eq_iff}

-- `at` finds an entry there that has the key `k`.
pub record Hits {K : Type 0} (key : HeaderField → K) (t : HpackTable) (k : K) (index : ℕ)
    : Type 0 where
  pub entry : HeaderField
  pub found : at t index ≡ some entry
  pub has_key : key entry ≡ k
  pub plain : IsPlain entry

id_to_index_live :
    (t : HpackTable) (id i : ℕ)
    → id_to_index t id ≡ some i
    → (oldest_id t ≤ id) × (i ≡ length static_entry_table + (t.next_id - id))
unfolding id_to_index
id_to_index_live t id i e = ground arith

at-dynamic :
    (t : HpackTable) (index back : ℕ) (e : HeaderField)
    → index ≡ length static_entry_table + back
    → 0 < back
    → back ≤ length t.entry_table
    → get_elem? t.entry_table (length t.entry_table - back) ≡ some e
    → at t index ≡ some e
unfolding at
at-dynamic t index back e is pos le h =
    let b : index - length static_entry_table ≡ back = omega arith in ground (arith, b)

module _ {K : Type 0} (key : HeaderField → K) (eq : K → K → Bool) where
  -- The check of one row of a static lookup table against the static entries.
  entry_matches : K → Option HeaderField → Bool
  entry_matches k none = false
  entry_matches k (some e) = eq (key e) k && not e.sensitivity

  row_matches : K × ℕ → Bool
  unfolding entry_matches
  row_matches (k, i) =
      leb 1 i
      && (leb i (length static_entry_table)
          && entry_matches k (get_elem? static_entry_table (i - 1)))

  rows_match : Map K ℕ → Bool
  unfolding row_matches
  rows_match [] = true
  rows_match (row ∷ m) = row_matches row && rows_match m

  rows_match-All : (m : Map K ℕ) → rows_match m ≡ true → All (λ row. row_matches row ≡ true) m
  unfolding rows_match
  rows_match-All [] e = tt
  rows_match-All (row ∷ m) e = elim (Bool-cases (row_matches row)) [
    | inl t ↦ (t, rows_match-All m (rw t at e))
    | inr f ↦ cc (rw f at e)
  ]

module _ {K : Type 0} (key : HeaderField → K) (eq : K → K → Bool)
    (eq_iff : (a b : K) → (eq a b ≡ true) ↔ (a ≡ b)) where
  entry_matches-Hits :
      (t : HpackTable) (k : K) (i : ℕ) (o : Option HeaderField)
      → 1 ≤ i
      → i ≤ length static_entry_table
      → get_elem? static_entry_table (i - 1) ≡ o
      → entry_matches key eq k o ≡ true
      → Hits key t k i
  unfolding entry_matches at
  entry_matches-Hits t k i none lo hi e h = cc
  entry_matches-Hits t k i (some f) lo hi e h = record {
    entry = f;
    found = ground arith;
    has_key = (eq_iff (key f) k).0 (ground arith);
    plain = ground arith;
  }

  row_matches-Hits :
      (t : HpackTable) (k : K) (i : ℕ) → row_matches key eq (k, i) ≡ true → Hits key t k i
  unfolding row_matches
  row_matches-Hits t k i h =
      entry_matches-Hits t k i _ (ground arith) (ground arith) refl (ground arith)

  static-Hits :
      (t : HpackTable) (m : Map K ℕ)
      → rows_match key eq m ≡ true
      → (k : K) (i : ℕ) → lookup eq k m ≡ some i
      → Hits key t k i
  static-Hits t m ok k i e = row_matches-Hits t k i (
      lookup-All eq eq_iff (λ row. row_matches key eq row ≡ true) k i m (rows_match-All key eq m ok)
        e)

  -- The dynamic entries: an id that is not evicted.
  live-Hits :
      (t : HpackTable) (m : Map K ℕ)
      → IsTable t
      → Indexed key eq (oldest_id t) t.next_id t.entry_table m
      → (k : K) (i : ℕ) → live_index t (lookup eq k m) ≡ some i
      → Hits key t k i
  unfolding live_index
  live-Hits t m v x k i e = elim (Option-cases (lookup eq k m)) [
    | inl l ↦ cc (rw (l, live_index) at e)
    | inr (id, l) ↦ live id l (rw (l, live_index) at e)
  ]
    where
      live : (id : ℕ) → lookup eq k m ≡ some id → id_to_index t id ≡ some i → Hits key t k i
      live id l e =
          let p = x.points k id l in
          let (alive, is) = id_to_index_live t id i e in
          let (f, there, has) = p.entry alive in
          let ids = v.indexes.ids in
          let place : length t.entry_table - (t.next_id - id) ≡ id - oldest_id t =
            omega (arith, p.given) in
          record {
            entry = f;
            found =
                at-dynamic t i (t.next_id - id) f is (omega (arith, p.given)) (omega arith)
                  (rw place there);
            has_key = has;
            plain = All-get_elem? IsPlain t.entry_table (id - oldest_id t) f v.indexes.plain there;
          }

name_rows : rows_match name_of bytes_eq static_name_table ≡ true
unfolding rows_match static_name_table static_entry_table bytes_eq
name_rows = refl

name_value_rows : rows_match name_value pair_eq static_name_value_table ≡ true
unfolding rows_match static_name_value_table static_entry_table pair_eq bytes_eq
name_value_rows = refl

-- What `find` answers, and where `at` then leads.
abbrev pub Finds : HpackTable → HeaderField → Bool × ℕ → Type 0
Finds t h (true, index) = Hits name_value t (name_value h) index
Finds t h (false, index) = (index ≢ 0) → Hits name_of t h.name index

exact_match-Hits :
    (t : HpackTable) (h : HeaderField) (i : ℕ)
    → IsTable t
    → exact_match t h ≡ some i
    → Hits name_value t (name_value h) i
unfolding exact_match
exact_match-Hits t h i v e =
    elim (Option-cases (lookup pair_eq (name_value h) static_name_value_table)) [
      | inl l ↦
          live-Hits name_value pair_eq pair_eq_iff t t.name_value_table v v.indexes.name_values
            (name_value h) i (rw (l, exact_match) at e)
      | inr (j, l) ↦
          let same : j ≡ i = cc (rw (l, exact_match) at e) in
          static-Hits name_value pair_eq pair_eq_iff t static_name_value_table name_value_rows
            (name_value h) i (rw same at l)
    ]

name_match-Hits :
    (t : HpackTable) (h : HeaderField) (i : ℕ)
    → IsTable t
    → name_match t h ≡ i
    → i ≢ 0
    → Hits name_of t h.name i
unfolding name_match
name_match-Hits t h i v e pos = elim (Option-cases (lookup bytes_eq h.name static_name_table)) [
  | inr (j, l) ↦
      let same : j ≡ i = rw (l, name_match) at e in
      static-Hits name_of bytes_eq bytes_eq_iff t static_name_table name_rows h.name i
        (rw same at l)
  | inl l ↦ elim (Option-cases (live_index t (lookup bytes_eq h.name t.name_table))) [
    | inl n ↦ absurd (pos (sym (rw (l, n, name_match) at e)))
    | inr (j, n) ↦
        let same : j ≡ i = rw (l, n, name_match) at e in
        live-Hits name_of bytes_eq bytes_eq_iff t t.name_table v v.indexes.names h.name i
          (rw same at n)
  ]
]

pub find-Finds : (t : HpackTable) (h : HeaderField) → IsTable t → Finds t h (find t h)
unfolding find
find-Finds t h v = go (if h.sensitivity then none else exact_match t h) refl
  where
    go :
        (o : Option ℕ)
        → (if h.sensitivity then none else exact_match t h) ≡ o
        → Finds t h (elim o [ some index ↦ (true, index) | none ↦ (false, name_match t h) ])
    go none e = λ pos. name_match-Hits t h (name_match t h) v refl pos
    go (some index) e = exact_match-Hits t h index v (ground arith)

-- In a well-formed table, where `find` reports an exact match at an index, `at` gives an entry with
-- that name and value; where it reports a match of the name alone at an index that is not 0, `at`
-- gives an entry with that name; and none of these entries is sensitive.
pub at-find :
    (t : HpackTable) (h : HeaderField) (exact : Bool) (index : ℕ)
    → IsTable t
    → find t h ≡ (exact, index)
    → index ≢ 0
    → (e : HeaderField) × (at t index ≡ some e)
      × (e.name ≡ h.name)
      × ((exact ≡ false) ⊎ (e.value ≡ h.value))
      × (e.sensitivity ≡ false)
at-find t h true index v f pos =
    let r : Hits name_value t (name_value h) index = subst (Finds t h) f (find-Finds t h v) in
    (r.entry, r.found, ap (λ p. p.0) r.has_key, inr (ap (λ p. p.1) r.has_key), r.plain)
at-find t h false index v f pos =
    let named : index ≢ 0 → Hits name_of t h.name index = subst (Finds t h) f (find-Finds t h v) in
    let r = named pos in (r.entry, r.found, r.has_key, inl refl, r.plain)

-- An exact match is never at index 0.
pub find_exact_pos :
    (t : HpackTable) (h : HeaderField) (index : ℕ)
    → IsTable t
    → find t h ≡ (true, index)
    → index ≢ 0
unfolding at
find_exact_pos t h index v f zero_index =
    let r : Hits name_value t (name_value h) index = subst (Finds t h) f (find-Finds t h v) in
    ground (arith, r.found)
