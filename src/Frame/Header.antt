-- ===== src/Frame/Header.antt =====
-- struct FrameHeader of include/chttp2/frame.hpp, its coding in src/frame.cpp and the enums
-- FrameType and FrameFlag of include/chttp2/http2_constants.hpp. A byte that the code shifts in
-- place with `|` does not overlap the others, so `|` is `+`; `& 0x7FFFFFFF` is `% 2 ^ 31`.
use chttp.Prelude.{
  ℕ, ◌+◌, ◌*◌, ◌/◌, ◌%◌, ◌^◌, bit_and, bit_or, List, [], ◌∷◌, Option, none, some, Bool, not, ◌==◌,
}

abbrev pub FrameType : Type 0
FrameType = ℕ

abbrev pub frame_data : FrameType
frame_data = 0

abbrev pub frame_headers : FrameType
frame_headers = 1

abbrev pub frame_priority : FrameType
frame_priority = 2

abbrev pub frame_rst_stream : FrameType
frame_rst_stream = 3

abbrev pub frame_settings : FrameType
frame_settings = 4

abbrev pub frame_push_promise : FrameType
frame_push_promise = 5

abbrev pub frame_ping : FrameType
frame_ping = 6

abbrev pub frame_goaway : FrameType
frame_goaway = 7

abbrev pub frame_window_update : FrameType
frame_window_update = 8

abbrev pub frame_continuation : FrameType
frame_continuation = 9

abbrev pub frame_invalid : FrameType
frame_invalid = 0xff

abbrev pub FrameFlag : Type 0
FrameFlag = ℕ

abbrev pub flag_end_stream : FrameFlag
flag_end_stream = 0x1

abbrev pub flag_ack : FrameFlag
flag_ack = 0x1

abbrev pub flag_end_headers : FrameFlag
flag_end_headers = 0x4

abbrev pub flag_padded : FrameFlag
flag_padded = 0x8

abbrev pub flag_priority : FrameFlag
flag_priority = 0x20

pub record FrameHeader : Type 0 where
  pub payload_length : ℕ
  pub type : FrameType
  pub flags : ℕ
  pub stream_id : ℕ

abbrev pub header_for : FrameType → ℕ → FrameHeader
header_for t id = record { payload_length = 0; type = t; flags = 0; stream_id = id }

abbrev pub encoded_size : ℕ
encoded_size = 9

unfoldable pub has_any_flag : FrameHeader → FrameFlag → Bool
has_any_flag h flag = not (bit_and h.flags flag == 0)

unfoldable pub set_flag : FrameHeader → FrameFlag → FrameHeader
set_flag h flag = record h { flags = bit_or h.flags flag }

-- `none` is a span that is not 9 bytes long, which an assertion excludes.
unfoldable pub decode : List ℕ → Option FrameHeader
decode (l2 ∷ l1 ∷ l0 ∷ t ∷ f ∷ s3 ∷ s2 ∷ s1 ∷ s0 ∷ []) = some (record {
  payload_length = l2 * 2 ^ 16 + l1 * 2 ^ 8 + l0;
  type = t;
  flags = f;
  stream_id = (s3 * 2 ^ 24 + s2 * 2 ^ 16 + s1 * 2 ^ 8 + s0) % 2 ^ 31;
})
decode _ = none

unfoldable pub encode : FrameHeader → List ℕ
encode h =
    (h.payload_length / 2 ^ 16 % 256)
    ∷ (h.payload_length / 2 ^ 8 % 256)
    ∷ (h.payload_length % 256)
    ∷ (h.type % 256)
    ∷ h.flags
    ∷ (h.stream_id / 2 ^ 24 % 256)
    ∷ (h.stream_id / 2 ^ 16 % 256)
    ∷ (h.stream_id / 2 ^ 8 % 256)
    ∷ (h.stream_id % 256)
    ∷ []
