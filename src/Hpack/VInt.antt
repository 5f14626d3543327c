-- ===== src/Hpack/VInt.antt =====
-- Hpack::encodeVInt and decodeVInt (src/hpack/hpack.cpp). `value & 0x7f` is `value % 128`, the
-- byte `0x80 | (value & 0x7f)` is `value % 128 + 128`, `byte & maxPrefix` is `byte % 2 ^ prefix`,
-- and the bit 0x80 of a byte is `byte / 128 % 2`.
pub mod RoundTrip
use chttp.Prelude.{
  ℕ, zero, suc, ◌+◌, ◌-◌, ◌*◌, ◌/◌, ◌%◌, ◌^◌, ◌==◌, ltb, leb, List, [], ◌∷◌, Option, none, some,
  ◌||◌, if◌then◌else◌,
}

abbrev pub max_prefix : ℕ → ℕ
max_prefix prefix = 2 ^ prefix - 1

-- The loop over the groups of seven bits. A uint64_t has ten groups, so a fuel of nine rounds is
-- enough; the round without fuel writes what is left.
unfoldable pub encode_groups : ℕ → ℕ → List ℕ
encode_groups zero value = value ∷ []
encode_groups (suc fuel) value =
    let rest = encode_groups fuel (value / 128) in
    if ltb value 128 then value ∷ [] else (value % 128 + 128) ∷ rest

-- The bytes appended to the buffer.
unfoldable pub encode_vint : ℕ → ℕ → List ℕ
encode_vint prefix value =
    if ltb value (max_prefix prefix)
    then value ∷ []
    else max_prefix prefix ∷ encode_groups 9 (value - max_prefix prefix)

-- The loop over the continuation bytes; `none` is a varint that is too long or cut short.
unfoldable pub decode_groups : List ℕ → ℕ → ℕ → Option (ℕ × List ℕ)
decode_groups [] value shift = none
decode_groups (byte ∷ view) value shift =
    let value' = (value + byte % 128 * 2 ^ shift) % 2 ^ 64 in
    let more = decode_groups view value' (shift + 7) in
    if byte / 128 % 2 == 0 then some (value', view) else if leb 63 (shift + 7) then none else more

unfoldable pub decode_first : ℕ → List ℕ → Option (ℕ × List ℕ)
decode_first prefix [] = none
decode_first prefix (byte ∷ view) =
    let value = byte % 2 ^ prefix in
    if ltb value (max_prefix prefix) then some (value, view) else decode_groups view value 0

-- The value and the bytes after it. On failure the caller's buffer is as it was.
unfoldable pub decode_vint : List ℕ → ℕ → Option (ℕ × List ℕ)
unfolding decode_first
decode_vint buffer prefix =
    if ltb prefix 1 || ltb 8 prefix then none else decode_first prefix buffer
