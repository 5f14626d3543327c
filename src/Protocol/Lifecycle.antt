-- ===== src/Protocol/Lifecycle.antt =====
-- The constructors and reset of Http2Protocol (src/http2_protocol.cpp), and the part of ClientConfig
-- (include/chttp2/client_config.hpp) that they read. reset leaves the ping counter and the header
-- bytes of a stream that is gone as they are, so it takes the state before.
use chttp.Prelude.{ℕ, [], false}
use chttp.Prelude.Int.{signed32}
use chttp.FrameCodec.{clear}
use chttp.Flow.InFlow
use chttp.Flow.OutFlow
use chttp.Hpack.Codec.{initial, set_decode_table_limit, set_encode_table_size}
use chttp.Protocol.Constants.{no_error}
use chttp.Protocol.State.{Http2Protocol}

-- class Http2SettingInfo.
abbrev pub default_max_concurrent_streams : ℕ
default_max_concurrent_streams = 250

abbrev pub default_header_table_size : ℕ
default_header_table_size = 4096

abbrev pub default_initial_window_size : ℕ
default_initial_window_size = 65535

abbrev pub default_max_frame_size : ℕ
default_max_frame_size = 16384

abbrev pub default_max_header_list_size : ℕ
default_max_header_list_size = 10485760

unfoldable pub reset : Http2Protocol → Http2Protocol
reset p = record p {
  frame_codec = clear p.frame_codec;
  streams = [];
  max_concurrent_streams = default_max_concurrent_streams;
  encode_header_table_size = default_header_table_size;
  decode_header_table_size = default_header_table_size;
  max_frame_size = default_max_frame_size;
  local_max_frame_size = default_max_frame_size;
  initial_window_size = default_initial_window_size;
  max_header_list_size = default_max_header_list_size;
  enable_push = false;
  next_stream_id = 1;
  last_peer_stream_id = 0;
  started = false;
  closed = false;
  sent_connection_preface = false;
  sent_local_settings = false;
  got_peer_settings = false;
  sent_goaway = false;
  received_goaway = false;
  transport_closed = false;
  expecting_continuation = false;
  continuation_stream_id = 0;
  connection_error_code = no_error;
  connection_debug_data = [];
  connection_inflow = InFlow.init InFlow.empty (signed32 default_initial_window_size);
  connection_out_flow = (OutFlow.add OutFlow.empty (signed32 default_initial_window_size)).0;
  hpack =
      set_encode_table_size (set_decode_table_limit initial default_header_table_size)
        default_header_table_size;
}

-- The members before the constructor's body.
abbrev pub blank : Http2Protocol
blank = record {
  frame_codec = [];
  streams = [];
  max_concurrent_streams = 0;
  encode_header_table_size = 0;
  decode_header_table_size = 0;
  max_frame_size = 0;
  local_max_frame_size = 0;
  initial_window_size = 0;
  max_header_list_size = 0;
  enable_push = false;
  next_stream_id = 1;
  last_peer_stream_id = 0;
  started = false;
  closed = false;
  sent_connection_preface = false;
  sent_local_settings = false;
  got_peer_settings = false;
  sent_goaway = false;
  received_goaway = false;
  transport_closed = false;
  expecting_continuation = false;
  continuation_stream_id = 0;
  connection_error_code = no_error;
  connection_debug_data = [];
  ping_counter = 0;
  connection_inflow = InFlow.empty;
  connection_out_flow = OutFlow.empty;
  hpack = initial;
  ghost_header_block = [];
  undefined_behavior = false;
}

abbrev pub new_protocol : Http2Protocol
new_protocol = reset blank

pub record ClientConfig : Type 0 where
  pub max_concurrent_streams : ℕ
  pub initial_window_size : ℕ
  pub max_frame_size : ℕ
  pub max_header_list_size : ℕ
  pub header_table_size : ℕ

unfoldable pub configured : ClientConfig → Http2Protocol
unfolding reset
configured config = record new_protocol {
  max_concurrent_streams = config.max_concurrent_streams;
  decode_header_table_size = config.header_table_size;
  local_max_frame_size = config.max_frame_size;
  initial_window_size = config.initial_window_size;
  max_header_list_size = config.max_header_list_size;
  hpack = set_decode_table_limit new_protocol.hpack config.header_table_size;
  connection_inflow =
      InFlow.init new_protocol.connection_inflow (signed32 config.initial_window_size);
}
