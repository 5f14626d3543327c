-- ===== src/Hpack/VInt/RoundTrip.antt =====
-- What encodeVInt writes, decodeVInt reads back (src/hpack/hpack.cpp).
use chttp.Prelude.{
  ℕ, zero, suc, ◌+◌, ◌-◌, ◌*◌, ◌/◌, ◌%◌, ◌^◌, ◌≤◌, ◌<◌, ◌≡◌, ap, List, [], ◌∷◌, ◌++◌, some, arith,
  length,
}
use native.Mathlib.Nat.{div-add-mod}
use native.Mathlib.Numerals.{towards_suc}
use chttp.Hpack.VInt.{
  max_prefix, encode_groups, encode_vint, decode_groups, decode_first, decode_vint,
}

pub pow_pos : (n : ℕ) → 0 < 2 ^ n
pow_pos zero = omega arith
pow_pos (suc n) = omega (arith, pow_pos n)

pow_shift : (s : ℕ) → 2 ^ (s + 7) ≡ 128 * 2 ^ s
pow_shift s = simp towards_suc (omega arith)

-- The value of the lowest group and of the others, at bit s.
group_split : (v s : ℕ) → v * 2 ^ s ≡ v % 128 * 2 ^ s + v / 128 * 2 ^ (s + 7)
group_split v s = omega (
  arith,
  ap (λ (x : ℕ). x * 2 ^ s) (div-add-mod v 128),
  ap (λ (x : ℕ). v / 128 * x) (pow_shift s),
)

-- Reading k + 1 groups at most, from bit `shift` on, below bit 63.
decode_groups-encode :
    (k fuel v acc shift : ℕ) (rest : List ℕ)
    → v < 128 ^ suc k
    → k ≤ fuel
    → shift + 7 * k < 63
    → acc + v * 2 ^ shift < 2 ^ 64
    → decode_groups (encode_groups fuel v ++ rest) acc shift ≡ some (acc + v * 2 ^ shift, rest)
unfolding encode_groups decode_groups
decode_groups-encode zero zero v acc shift rest hv hf hs fits = ground arith
decode_groups-encode zero (suc fuel) v acc shift rest hv hf hs fits = ground arith
decode_groups-encode (suc k) zero v acc shift rest hv hf hs fits = absurd (omega arith)
decode_groups-encode (suc k) (suc fuel) v acc shift rest hv hf hs fits = ground (
  arith,
  group_split v shift,
  decode_groups-encode k fuel (v / 128) (acc + v % 128 * 2 ^ shift) (shift + 7) rest (omega arith),
)

-- The first byte with bits above the prefix set.
abbrev pub add_first : ℕ → List ℕ → List ℕ
add_first n [] = []
add_first n (b ∷ bytes) = (b + n) ∷ bytes

low_part : (b k m : ℕ) → b < m → (b + k * m) % m ≡ b
low_part b k m h = grind arith

decode_first-encode_vint :
    (prefix value flags : ℕ) (rest : List ℕ)
    → 0 < 2 ^ prefix
    → value < 2 ^ 63
    → decode_first prefix (add_first (flags * 2 ^ prefix) (encode_vint prefix value) ++ rest)
      ≡ some (value, rest)
unfolding decode_first encode_vint
decode_first-encode_vint prefix value flags rest pos fits = ground (
  arith,
  low_part value flags (2 ^ prefix),
  low_part (max_prefix prefix) flags (2 ^ prefix),
  decode_groups-encode 8 9 (value - max_prefix prefix) (max_prefix prefix) 0 rest,
)

-- A value below 2^63 that was written after a prefix of 1 to 8 bits, whatever the bits above the
-- prefix in its first byte, is read back, and the bytes after it are left.
pub decode_vint-encode_vint :
    (prefix value flags : ℕ) (rest : List ℕ)
    → 1 ≤ prefix
    → prefix ≤ 8
    → value < 2 ^ 63
    → decode_vint (add_first (flags * 2 ^ prefix) (encode_vint prefix value) ++ rest) prefix
      ≡ some (value, rest)
unfolding decode_vint
decode_vint-encode_vint prefix value flags rest lo hi fits =
    ground (arith, pow_pos prefix, decode_first-encode_vint prefix value flags rest)

-- At least one byte is taken.
decode_groups_bound :
    (bytes : List ℕ) (value shift : ℕ) (v : ℕ) (rest : List ℕ)
    → decode_groups bytes value shift ≡ some (v, rest)
    → length rest < length bytes
unfolding decode_groups
decode_groups_bound [] value shift v rest e = cc
decode_groups_bound (b ∷ bytes) value shift v rest e =
    ground
      (arith, decode_groups_bound bytes ((value + b % 128 * 2 ^ shift) % 2 ^ 64) (shift + 7) v rest)

pub decode_vint_shorter :
    (bytes : List ℕ) (prefix v : ℕ) (rest : List ℕ)
    → decode_vint bytes prefix ≡ some (v, rest)
    → length rest < length bytes
unfolding decode_vint decode_first
decode_vint_shorter [] prefix v rest e = ground arith
decode_vint_shorter (b ∷ bytes) prefix v rest e =
    ground (arith, decode_groups_bound bytes (b % 2 ^ prefix) 0 v rest)
