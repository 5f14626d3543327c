-- ===== src/HeaderField.antt =====
-- struct HeaderField of include/chttp2/header_field.hpp.
use chttp.Prelude.{ℕ, ◌+◌, ◌==◌, List, [], ◌∷◌, Bool, false, length}

pub record HeaderField : Type 0 where
  pub name : List ℕ
  pub value : List ℕ
  pub sensitivity : Bool

abbrev pub field : List ℕ → List ℕ → HeaderField
field name value = record { name = name; value = value; sensitivity = false }

-- RFC 7541, section 4.1.
unfoldable pub size : HeaderField → ℕ
size h = length h.name + length h.value + 32

unfoldable pub pseudo : HeaderField → Bool
pseudo h = starts_with_colon h.name
  where
    starts_with_colon : List ℕ → Bool
    starts_with_colon [] = false
    starts_with_colon (c ∷ _) = c == b':'
