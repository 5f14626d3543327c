-- ===== src/Protocol/Constants.antt =====
-- ErrorCode, Http2SettingParameter, StreamState and Http2SettingInfo of
-- include/chttp2/http2_constants.hpp. A peer may send any code, so an ErrorCode is its number.
use chttp.Prelude.{ℕ, ◌-◌, ◌*◌, ◌^◌}

abbrev pub ErrorCode : Type 0
ErrorCode = ℕ

abbrev pub no_error : ErrorCode
no_error = 0x0

abbrev pub protocol_error : ErrorCode
protocol_error = 0x1

abbrev pub flow_control_error : ErrorCode
flow_control_error = 0x3

abbrev pub stream_closed_error : ErrorCode
stream_closed_error = 0x5

abbrev pub frame_size_error : ErrorCode
frame_size_error = 0x6

abbrev pub cancel : ErrorCode
cancel = 0x8

abbrev pub compression_error : ErrorCode
compression_error = 0x9

abbrev pub enhance_your_calm : ErrorCode
enhance_your_calm = 0xb

abbrev pub header_table_size : ℕ
header_table_size = 0x1

abbrev pub enable_push_parameter : ℕ
enable_push_parameter = 0x2

abbrev pub max_concurrent_streams_parameter : ℕ
max_concurrent_streams_parameter = 0x3

abbrev pub initial_window_size_parameter : ℕ
initial_window_size_parameter = 0x4

abbrev pub max_frame_size_parameter : ℕ
max_frame_size_parameter = 0x5

abbrev pub max_header_list_size_parameter : ℕ
max_header_list_size_parameter = 0x6

pub data StreamState : Type 0 where
  state_idle : StreamState
  state_reserved_local : StreamState
  state_reserved_remote : StreamState
  state_open : StreamState
  state_half_closed_local : StreamState
  state_half_closed_remote : StreamState
  state_closed : StreamState

abbrev pub default_max_concurrent_streams : ℕ
default_max_concurrent_streams = 250

abbrev pub default_header_table_size : ℕ
default_header_table_size = 4096

abbrev pub default_initial_window_size : ℕ
default_initial_window_size = 65535

abbrev pub maximum_window_size : ℕ
maximum_window_size = 0x7fffffff

abbrev pub minimum_max_frame_size : ℕ
minimum_max_frame_size = 16384

abbrev pub maximum_max_frame_size : ℕ
maximum_max_frame_size = 2 ^ 24 - 1

abbrev pub default_max_header_list_size : ℕ
default_max_header_list_size = 10 * 2 ^ 20
