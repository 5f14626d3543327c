-- ===== src/Bytes.antt =====
-- include/chttp2/byte_buffer.hpp and include/chttp2/byte_span.hpp: a ByteBuffer is the list of its
-- bytes, a ByteSpan the list of those not yet read. `none` is the thrown "out of range". The
-- growth of the allocation is not modelled.
use chttp.Prelude.{
  ℕ, zero, suc, ◌+◌, ◌*◌, ◌/◌, ◌%◌, ◌^◌, ◌<◌, ◌≡◌, arith, List, [], ◌∷◌, ◌++◌, Option, none, some,
  length, drop, length-append, drop-length_append, ltb, if◌then◌else◌,
}

-- ByteBuffer::append<T> for a T of k bytes: the most significant byte first.
abbrev pub append_be : ℕ → ℕ → List ℕ
append_be zero value = []
append_be (suc k) value = (value / 256 ^ k % 256) ∷ append_be k value

-- ByteSpan::peek<T> and readAs<T> for a T of k bytes: `acc` holds the bytes read so far.
abbrev pub read_be : ℕ → ℕ → List ℕ → Option (ℕ × List ℕ)
read_be zero acc span = some (acc, span)
read_be (suc k) acc [] = none
read_be (suc k) acc (b ∷ span) = read_be k (acc * 256 + b) span

-- ByteSpan::advance.
unfoldable pub advance : ℕ → List ℕ → Option (List ℕ)
advance n span = if ltb (length span) n then none else some (drop n span)

-- Reading back a value that was appended leaves what follows it.
pub read_be-append_be_u16 :
    (v : ℕ) (rest : List ℕ) → v < 2 ^ 16 → read_be 2 0 (append_be 2 v ++ rest) ≡ some (v, rest)
read_be-append_be_u16 v rest h = ground arith

pub read_be-append_be_u32 :
    (v : ℕ) (rest : List ℕ) → v < 2 ^ 32 → read_be 4 0 (append_be 4 v ++ rest) ≡ some (v, rest)
read_be-append_be_u32 v rest h = ground arith

pub advance-append : (xs ys : List ℕ) → advance (length xs) (xs ++ ys) ≡ some ys
unfolding advance
advance-append xs ys = ground (arith, length-append xs ys, drop-length_append xs ys)
