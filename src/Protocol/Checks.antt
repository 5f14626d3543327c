-- ===== src/Protocol/Checks.antt =====
-- The checks of what the peer sends, at the beginning of src/http2_protocol.cpp: characters of
-- header fields, their list's size, padding, :status and content-length. The pointers that a check
-- writes through are its result. A char is the number of its byte: the code's comparisons of a
-- signed char say the same, since a byte from 0x80 on is negative there and so below 0x20.
pub mod Padding
pub mod Status
use chttp.Prelude.{
  ℕ, zero, suc, ◌+◌, ◌-◌, ◌*◌, ◌^◌, ◌==◌, ltb, leb, List, [], ◌∷◌, Option, none, some, Bool, true,
  false, not, ◌&&◌, ◌||◌, if◌then◌else◌, length, codes, bytes_eq,
}
use chttp.HeaderField.{HeaderField}
use chttp.Frame.Header.{has_any_flag, flag_padded}
use chttp.Frame.Raw.{RawFrame}
use chttp.Protocol.Constants.{ErrorCode, frame_size_error, protocol_error}

-- std::any_of.
unfoldable pub any_of : (ℕ → Bool) → List ℕ → Bool
any_of p [] = false
any_of p (c ∷ s) = p c || any_of p s

unfoldable pub invalid_name_char : ℕ → Bool
invalid_name_char c = leb c 0x20 || (leb 0x41 c && leb c 0x5a) || leb 0x7f c

unfoldable pub has_invalid_field_name_char : List ℕ → Bool
has_invalid_field_name_char name = any_of invalid_name_char name

unfoldable pub is_blank : ℕ → Bool
is_blank c = c == 0x20 || c == 0x09

abbrev pub invalid_value_char : ℕ → Bool
invalid_value_char c = c == 0x00 || c == 0x0a || c == 0x0d

-- `back` of a string that begins with c.
unfoldable pub back : ℕ → List ℕ → ℕ
back c [] = c
back c (d ∷ s) = back d s

unfoldable pub has_invalid_field_value : List ℕ → Bool
has_invalid_field_value [] = false
has_invalid_field_value (c ∷ s) =
    if is_blank c || is_blank (back c s) then true else any_of invalid_value_char (c ∷ s)

unfoldable pub to_lower : ℕ → ℕ
to_lower c = if leb 0x41 c && leb c 0x5a then c - 0x41 + 0x61 else c

unfoldable pub equals_ignore_case_ascii : List ℕ → List ℕ → Bool
equals_ignore_case_ascii [] [] = true
equals_ignore_case_ascii [] (r ∷ rhs) = false
equals_ignore_case_ascii (l ∷ lhs) [] = false
equals_ignore_case_ascii (l ∷ lhs) (r ∷ rhs) =
    to_lower l == to_lower r && equals_ignore_case_ascii lhs rhs

unfoldable pub is_connection_specific_header : HeaderField → Bool
is_connection_specific_header h =
    equals_ignore_case_ascii h.name (codes "connection")
    || (equals_ignore_case_ascii h.name (codes "proxy-connection")
        || (equals_ignore_case_ascii h.name (codes "keep-alive")
            || (equals_ignore_case_ascii h.name (codes "upgrade")
                || (equals_ignore_case_ascii h.name (codes "transfer-encoding")
                    || equals_ignore_case_ascii h.name (codes "te")))))

unfoldable pub header_list_size : List HeaderField → ℕ
header_list_size [] = 0
header_list_size (h ∷ headers) = length h.name + length h.value + 32 + header_list_size headers

-- What validatePaddedPayload says: `accepted`, or the code and the text of the failure.
pub data Verdict : Type 0 where
  accepted : Verdict
  rejected : ErrorCode → List ℕ → Verdict

unfoldable pub padding_verdict : ℕ → ℕ → List ℕ → Verdict
padding_verdict payload_length fixed_prefix_bytes [] = accepted
padding_verdict payload_length fixed_prefix_bytes (pad_length ∷ payload) =
    if ltb payload_length (1 + fixed_prefix_bytes)
    then rejected frame_size_error (codes "frame payload shorter than padded prefix")
    else if leb (payload_length - 1 - fixed_prefix_bytes) pad_length
    then rejected protocol_error (codes "padding exceeds frame payload")
    else accepted

-- A frame has as many bytes as its header says, so its payload is not empty where `payload[0]` is
-- read.
unfoldable pub validate_padded_payload : RawFrame → ℕ → Verdict
validate_padded_payload frame fixed_prefix_bytes =
    if not (has_any_flag frame.header flag_padded)
    then if ltb frame.header.payload_length fixed_prefix_bytes
      then rejected frame_size_error (codes "frame payload shorter than required prefix")
      else accepted
    else if frame.header.payload_length == 0
    then rejected protocol_error (codes "PADDED frame missing pad length")
    else padding_verdict frame.header.payload_length fixed_prefix_bytes frame.body

unfoldable pub is_digit : ℕ → Bool
is_digit c = leb 0x30 c && leb c 0x39

-- The loop of tryParseStatusCode, from the code read so far.
unfoldable pub status_digits : ℕ → List ℕ → Option ℕ
status_digits code [] = some code
status_digits code (c ∷ value) =
    if is_digit c then status_digits (code * 10 + (c - 0x30)) value else none

in_status_range : Option ℕ → Option ℕ
in_status_range none = none
in_status_range (some code) = if ltb code 100 || ltb 599 code then none else some code

unfoldable pub try_parse_status_code : List ℕ → Option ℕ
unfolding in_status_range
try_parse_status_code value =
    if not (length value == 3) then none else in_status_range (status_digits 0 value)

-- The loop of tryParseContentLength, from the number read so far.
unfoldable pub length_digits : ℕ → List ℕ → Option ℕ
length_digits n [] = some n
length_digits n (c ∷ value) =
    if not (is_digit c)
    then none
    else if ltb 1000000000000000 n
    then none
    else length_digits (n * 10 + (c - 0x30)) value

unfoldable pub try_parse_content_length : List ℕ → Option ℕ
try_parse_content_length [] = none
try_parse_content_length (c ∷ value) = length_digits 0 (c ∷ value)
