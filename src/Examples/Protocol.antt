-- ===== src/Examples/Protocol.antt =====
-- A concrete connection with the coder that leaves strings as they are (src/http2_protocol.cpp).
use chttp.Prelude.{
  List, [], ◌∷◌, ◌++◌, ◌≡◌, ◌≤◌, ◌==◌, ◌↔◌, some, true, false, map, arith, refl, codes,
}
use chttp.Prelude.Int.{pos, ◌-ℤ◌, ◌+ℤ◌, signed32}
use chttp.Prelude.Map.{lookup}
use chttp.Flow.OutFlow
use chttp.Flow.OutFlow.{OutFlow}
use chttp.Frame.Header.{frame_data, has_any_flag}
use chttp.Frame.Raw.{RawFrame}
use chttp.Frame.DataFrame.{DataFrame}
use chttp.Frame.HeadersFrame
use chttp.Frame.HeadersFrame.{HeadersFrame}
use chttp.Frame.ContinuationFrame
use chttp.Frame.ContinuationFrame.{ContinuationFrame}
use chttp.Hpack.Codec.{initial}
use chttp.Protocol.Constants.{no_error, protocol_error}
use chttp.Protocol.State.{Http2Protocol, Stream, Request, StepResult, no_result, new_stream}
use chttp.Protocol.Checks.{padding_verdict, validate_padded_payload, try_parse_status_code}
use chttp.Protocol.Checks.Padding.{TakesApart, validate_padded_payload-TakesApart}
use chttp.Protocol.Checks.Status.{status_text, try_parse_status_code_exact}
use chttp.Protocol.Settings.{shift_windows, apply_initial_window_size, apply_settings}
use chttp.Protocol.Settings.Windows.{
  FrameSizeIsLegal, apply_settings-FrameSizeIsLegal, shifted, apply_initial_window_size-lookup,
}
use chttp.Protocol.Fail.{fail_connection}
use chttp.Protocol.Fail.Closing.{Distinct, connection_events, fail_connection-closed}
use chttp.Protocol.Emit.{emit_request_headers, emit_body}
use chttp.Protocol.Emit.Block.{SplitsBlock, emit_request_headers-SplitsBlock}
use chttp.Protocol.Emit.Body.{EmitsBody, emit_body-EmitsBody}
use chttp.Protocol.Submit.{submit_request}
use chttp.Protocol.Submit.Ids.{Submits, submit_request-Submits}
use chttp.Examples.Hpack.{plain_coder}

abbrev pub post : Request
post = record {
  headers =
      (codes ":method", codes "POST")
      ∷ (codes ":path", codes "/")
      ∷ (codes ":scheme", codes "https")
      ∷ [];
  body = codes "hello";
}

-- A stream whose request body is waiting for the window.
abbrev pub waiting : Stream
waiting = record (new_stream 1) { rqst = post; outflow = record { window = pos 3 } }

abbrev pub connected : Http2Protocol
connected = record {
  frame_codec = [];
  streams = (1, waiting) ∷ (3, new_stream 3) ∷ [];
  max_concurrent_streams = 250;
  encode_header_table_size = 4096;
  decode_header_table_size = 4096;
  max_frame_size = 16384;
  local_max_frame_size = 16384;
  initial_window_size = 65535;
  max_header_list_size = 0;
  enable_push = false;
  next_stream_id = 5;
  last_peer_stream_id = 0;
  started = true;
  closed = false;
  sent_connection_preface = true;
  sent_local_settings = true;
  got_peer_settings = true;
  sent_goaway = false;
  received_goaway = false;
  transport_closed = false;
  expecting_continuation = false;
  continuation_stream_id = 0;
  connection_error_code = no_error;
  connection_debug_data = [];
  ping_counter = 0;
  undefined_behavior = false;
  connection_inflow = record { avail = pos 65535; unsent = pos 0 };
  connection_out_flow = record { window = pos 65535 };
  hpack = initial;
  ghost_header_block = [];
}

abbrev conn : OutFlow
conn = record { window = pos 100 }

emit_body-EmitsBody_example :
    (frames : List DataFrame) × (conn' : OutFlow) × (s' : Stream) × (emit_body 5 2 conn waiting
      ≡ some (frames, conn', s'))
    × EmitsBody 2 conn waiting frames conn' s'
emit_body-EmitsBody_example =
    emit_body-EmitsBody 5 2 conn waiting (omega arith) (omega arith) (omega arith)

submit_request-Submits_example :
    (out : StepResult × Http2Protocol) × (submit_request plain_coder connected post ≡ some out)
    × Submits connected post 1 out
submit_request-Submits_example =
    submit_request-Submits plain_coder connected post 1 (omega arith) (omega arith)

pub connected-Distinct : Distinct connected.streams
connected-Distinct = ((omega arith, tt), (tt, tt))

fail_connection-closed_example :
    ((fail_connection connected protocol_error (codes "x")).1.closed ≡ true)
    × ((fail_connection connected protocol_error (codes "x")).1.streams ≡ [])
    × ((fail_connection connected protocol_error (codes "x")).1.connection_error_code
        ≡ protocol_error)
    × ((fail_connection connected protocol_error (codes "x")).0.events
        ≡ connection_events connected protocol_error (codes "x"))
fail_connection-closed_example =
    fail_connection-closed connected protocol_error (codes "x") connected-Distinct

emit_request_headers-SplitsBlock_example :
    (first : HeadersFrame) × (frames : List ContinuationFrame) × (s' : Stream)
    × (emit_request_headers 4 (new_stream 3) (codes "a block") no_result
        ≡ some (
          record no_result {
            outbound =
                no_result.outbound
                ++ (HeadersFrame.to_bytes first ∷ map ContinuationFrame.to_bytes frames);
          },
          s',
        ))
    × SplitsBlock 4 (new_stream 3) s' (codes "a block") first frames
emit_request_headers-SplitsBlock_example =
    emit_request_headers-SplitsBlock 4 (new_stream 3) (codes "a block") no_result (omega arith)

apply_settings-FrameSizeIsLegal_example :
    FrameSizeIsLegal (apply_settings connected ((5, 1) ∷ (5, 20000) ∷ [])).1
apply_settings-FrameSizeIsLegal_example =
    apply_settings-FrameSizeIsLegal ((5, 1) ∷ (5, 20000) ∷ []) connected
      (record { at_least = omega arith; at_most = omega arith })

apply_initial_window_size-lookup_example :
    (lookup ◌==◌ 1 (apply_initial_window_size connected 100).1.streams
      ≡ some (shifted (signed32 100 -ℤ signed32 connected.initial_window_size) waiting))
    × ((apply_initial_window_size connected 100).1.undefined_behavior ≡ false)
unfolding apply_initial_window_size shift_windows lookup OutFlow.add ◌-ℤ◌ ◌+ℤ◌
apply_initial_window_size-lookup_example =
    apply_initial_window_size-lookup connected 100 1 waiting (omega arith) refl refl

abbrev padded : RawFrame
padded = record {
  header = record { payload_length = 4; type = frame_data; flags = 8; stream_id = 1 };
  body = 1 ∷ 104 ∷ 105 ∷ 0 ∷ [];
}

validate_padded_payload-TakesApart_example : (f : DataFrame) × TakesApart padded f
unfolding validate_padded_payload padding_verdict has_any_flag
validate_padded_payload-TakesApart_example = validate_padded_payload-TakesApart padded refl refl

try_parse_status_code_exact_example :
    (try_parse_status_code (codes "404") ≡ some 404)
    ↔ ((100 ≤ 404) × (404 ≤ 599) × (codes "404" ≡ status_text 404))
try_parse_status_code_exact_example = try_parse_status_code_exact (codes "404") 404
