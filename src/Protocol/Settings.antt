-- ===== src/Protocol/Settings.antt =====
-- The settings of both ends: applyPeerSettings and buildLocalSettingsFrame of
-- src/http2_protocol.cpp.
pub mod Windows
use chttp.Prelude.{
  ℕ, ◌*◌, ◌==◌, ltb, List, [], ◌∷◌, ◌++◌, Bool, true, false, ◌||◌, not, if◌then◌else◌, length,
}
use chttp.Prelude.Int.{ℤ, ◌-ℤ◌, signed32, ltb_ℤ, int32_max, int32_min}
use chttp.Prelude.Map.{Map}
use chttp.Flow.OutFlow
use chttp.Frame.SettingFrame.{SettingFrame, for_connection}
use chttp.Hpack.Codec.{set_encode_table_size}
use chttp.Protocol.Constants.{
  ErrorCode, no_error, protocol_error, flow_control_error, header_table_size, enable_push_parameter,
  max_concurrent_streams_parameter, initial_window_size_parameter, max_frame_size_parameter,
  max_header_list_size_parameter, maximum_window_size, minimum_max_frame_size,
  maximum_max_frame_size,
}
use chttp.Protocol.State.{Http2Protocol, Stream}

-- The loop over the streams' windows: the streams after the one that overflows are as they were.
unfoldable pub shift_windows : ℤ → Map ℕ Stream → Map ℕ Stream × Bool
shift_windows delta [] = ([], true)
shift_windows delta ((id, s) ∷ streams) =
    let (outflow, fits) = OutFlow.add s.outflow delta in
    let (rest, all_fit) = shift_windows delta streams in
    if not fits
    then ((id, s) ∷ streams, false)
    else ((id, record s { outflow = outflow }) ∷ rest, all_fit)

-- No int has this value.
unfoldable pub overflows : ℤ → Bool
overflows delta = ltb_ℤ int32_max delta || ltb_ℤ delta int32_min

-- INITIAL_WINDOW_SIZE. The difference is an int, whose overflow is undefined.
unfoldable pub apply_initial_window_size : Http2Protocol → ℕ → ErrorCode × Http2Protocol
apply_initial_window_size p value =
    if ltb maximum_window_size value
    then (flow_control_error, p)
    else let delta = signed32 value -ℤ signed32 p.initial_window_size in
      let (streams, all_fit) = shift_windows delta p.streams in
      (
        (if all_fit then no_error else flow_control_error),
        record p {
          initial_window_size = value;
          streams = streams;
          undefined_behavior = overflows delta || p.undefined_behavior;
        },
      )

-- One round of the loop: the switch over the identifier.
unfoldable pub apply_setting : Http2Protocol → ℕ → ℕ → ErrorCode × Http2Protocol
apply_setting p id value =
    if id == max_concurrent_streams_parameter
    then (no_error, record p { max_concurrent_streams = value })
    else if id == header_table_size
    then (
      no_error,
      record p { encode_header_table_size = value; hpack = set_encode_table_size p.hpack value },
    )
    else if id == enable_push_parameter
    then (if not (value == 0)
        then (protocol_error, p)
        else (no_error, record p { enable_push = false }))
    else if id == max_frame_size_parameter
    then (if ltb value minimum_max_frame_size || ltb maximum_max_frame_size value
        then (protocol_error, p)
        else (no_error, record p { max_frame_size = value }))
    else if id == initial_window_size_parameter
    then apply_initial_window_size p value
    else if id == max_header_list_size_parameter
    then (no_error, record p { max_header_list_size = value })
    else (no_error, p)

-- The loop over the settings, up to the first that is refused.
unfoldable pub apply_settings : Http2Protocol → List (ℕ × ℕ) → ErrorCode × Http2Protocol
apply_settings p [] = (no_error, p)
apply_settings p ((id, value) ∷ settings) =
    let (code, p') = apply_setting p id value in
    let rest = apply_settings p' settings in if code == no_error then rest else (code, p')

unfoldable pub apply_peer_settings : Http2Protocol → SettingFrame → ErrorCode × Http2Protocol
apply_peer_settings p frame = apply_settings p frame.settings

-- The settings that this end announces.
local_settings : Http2Protocol → List (ℕ × ℕ)
local_settings p =
    ((max_concurrent_streams_parameter, p.max_concurrent_streams)
      ∷ (header_table_size, p.decode_header_table_size)
      ∷ (enable_push_parameter, if p.enable_push then 1 else 0)
      ∷ (max_frame_size_parameter, p.local_max_frame_size)
      ∷ (initial_window_size_parameter, p.initial_window_size)
      ∷ [])
    ++ (if ltb 0 p.max_header_list_size
        then (max_header_list_size_parameter, p.max_header_list_size) ∷ []
        else [])

unfoldable pub build_local_settings_frame : Http2Protocol → SettingFrame
unfolding local_settings
build_local_settings_frame p =
    let f = for_connection in
    record {
      header = record (f.header) { payload_length = length (local_settings p) * 6 };
      settings = local_settings p;
    }
