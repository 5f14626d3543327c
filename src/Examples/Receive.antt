-- ===== src/Examples/Receive.antt =====
-- Calls of a concrete connection (src/http2_protocol.cpp) with the coder that leaves strings as they
-- are.
use chttp.Prelude.{ℕ, List, [], ◌∷◌, ◌≡◌, some, true, false, inl, refl, codes, arith, bytes_eq}
use chttp.HeaderField.{HeaderField}
use chttp.Protocol.Constants.{no_error, cancel}
use chttp.Protocol.State.{Http2Protocol, StepResult, new_stream}
use chttp.Protocol.Checks.{
  any_of, invalid_name_char, has_invalid_field_name_char, is_blank, back, has_invalid_field_value,
  to_lower, equals_ignore_case_ascii, is_connection_specific_header, is_digit, status_digits,
  try_parse_status_code,
}
use chttp.Protocol.Response.{
  get_status_code, scan_pseudo, scan_regular, scan_header, scan_headers, conclude,
  validate_response_header_block,
}
use chttp.Protocol.Receive.{receive_bytes}
use chttp.Protocol.Lifecycle.{ClientConfig, configured}
use chttp.Protocol.Calls.{
  Call, call_start, call_submit_request, call_cancel_stream, call_send_ping, call_receive_bytes,
  call_close, perform_all,
}
use chttp.Protocol.Sound.{HasStatus, IsSound, OrUndefined}
use chttp.Protocol.Sound.Status.{validate_response_header_block-HasStatus}
use chttp.Protocol.Sound.Receive.{Received, receive_bytes-Received}
use chttp.Protocol.Sound.Calls.{perform_all-configured}
use chttp.Examples.Hpack.{plain_coder}
use chttp.Examples.Protocol.{post, connected, connected-Distinct}

abbrev pub default_config : ClientConfig
default_config = record {
  max_concurrent_streams = 100;
  initial_window_size = 65535;
  max_frame_size = 16384;
  max_header_list_size = 0;
  header_table_size = 4096;
}

-- SETTINGS without a setting, and the beginning of a DATA frame on stream 1.
abbrev some_bytes : List ℕ
some_bytes = 0 ∷ 0 ∷ 0 ∷ 4 ∷ 0 ∷ 0 ∷ 0 ∷ 0 ∷ 0 ∷ 0 ∷ 0 ∷ 9 ∷ 0 ∷ []

pub connected-IsSound : IsSound connected
unfolding get_status_code
connected-IsSound = (
  (
    connected-Distinct,
    ((refl, (omega arith, omega arith, refl)), ((refl, (omega arith, omega arith, refl)), tt)),
  ),
  (omega arith, omega arith),
  inl refl,
)

receive_bytes-Received_example :
    (step : StepResult × Http2Protocol) × (receive_bytes plain_coder connected some_bytes
      ≡ some step)
    × OrUndefined step.1 (Received connected.next_stream_id step)
receive_bytes-Received_example =
    receive_bytes-Received plain_coder connected some_bytes connected-IsSound

abbrev calls : List Call
calls =
    call_start
    ∷ call_submit_request post
    ∷ call_receive_bytes some_bytes
    ∷ call_cancel_stream 1 cancel
    ∷ call_send_ping
    ∷ call_close
    ∷ []

perform_all-configured_example :
    (out : List StepResult × Http2Protocol) × (perform_all plain_coder
        (configured default_config)
        calls
      ≡ some out)
    × OrUndefined out.1 (IsSound out.1)
perform_all-configured_example = perform_all-configured plain_coder default_config calls

abbrev ok_headers : List HeaderField
ok_headers =
    record { name = codes ":status"; value = codes "204"; sensitivity = false }
    ∷ record { name = codes "server"; value = codes "x"; sensitivity = false }
    ∷ []

ok_headers-accepted : (validate_response_header_block (new_stream 1) ok_headers true).0 ≡ no_error
unfolding validate_response_header_block scan_headers scan_header scan_pseudo scan_regular conclude
    has_invalid_field_name_char invalid_name_char has_invalid_field_value is_blank back any_of
    is_connection_specific_header equals_ignore_case_ascii to_lower try_parse_status_code
    status_digits is_digit bytes_eq
ok_headers-accepted = refl

validate_response_header_block-HasStatus_example : HasStatus ok_headers
validate_response_header_block-HasStatus_example =
    validate_response_header_block-HasStatus (new_stream 1) ok_headers true refl ok_headers-accepted
