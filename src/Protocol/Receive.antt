-- ===== src/Protocol/Receive.antt =====
-- The received bytes: receiveFrame and receiveBytes (src/http2_protocol.cpp). The children are the
-- handlers of the frame types.
pub mod Data
pub mod Headers
pub mod Settings
pub mod Control
use chttp.Prelude.{
  ℕ, zero, suc, ◌==◌, ltb, List, [], ◌∷◌, Option, none, some, Bool, true, false, not, ◌&&◌, ◌||◌,
  if◌then◌else◌, length, codes, ◌>>=◌,
}
use chttp.Frame.Header.{
  frame_data, frame_headers, frame_priority, frame_rst_stream, frame_settings, frame_push_promise,
  frame_ping, frame_goaway, frame_window_update, frame_continuation,
}
use chttp.Frame.Raw.{RawFrame}
use chttp.FrameCodec.{feed, try_pop}
use chttp.Hpack.HuffmanCoder.{HuffmanCoder}
use chttp.Protocol.Constants.{protocol_error, frame_size_error}
use chttp.Protocol.State.{
  Http2Protocol, StepResult, no_result, merge_step_result, append_event, unknown_frame_received,
}
use chttp.Protocol.Fail.{fail_connection}
use chttp.Protocol.Receive.Data.{Outcome, process_data_frame}
use chttp.Protocol.Receive.Headers.{process_headers_frame, process_continuation_frame}
use chttp.Protocol.Receive.Settings.{process_setting_frame, process_window_update_frame}
use chttp.Protocol.Receive.Control.{
  process_priority_frame, process_rst_stream_frame, process_push_promise_frame, process_ping_frame,
  process_go_away_frame,
}

module _ (huffman : HuffmanCoder) where
  -- The switch over the type.
  unfoldable pub dispatch : Http2Protocol → RawFrame → Outcome
  dispatch p frame =
      let t = frame.header.type in
      if t == frame_data
      then process_data_frame p frame
      else if t == frame_headers
      then process_headers_frame huffman p frame
      else if t == frame_priority
      then process_priority_frame p frame
      else if t == frame_rst_stream
      then process_rst_stream_frame p frame
      else if t == frame_settings
      then process_setting_frame p frame
      else if t == frame_push_promise
      then process_push_promise_frame p frame
      else if t == frame_ping
      then process_ping_frame p frame
      else if t == frame_goaway
      then process_go_away_frame p frame
      else if t == frame_window_update
      then process_window_update_frame p frame
      else if t == frame_continuation
      then process_continuation_frame huffman p frame
      else some (
        append_event no_result
            (unknown_frame_received t frame.header.stream_id frame.header.flags frame.body),
        p,
      )

  unfoldable pub receive_frame : Http2Protocol → RawFrame → Outcome
  receive_frame p frame =
      if not p.got_peer_settings && not (frame.header.type == frame_settings)
      then some (fail_connection p protocol_error (codes "first peer frame must be SETTINGS"))
      else if ltb p.local_max_frame_size frame.header.payload_length
      then some (fail_connection p frame_size_error (codes "frame exceeds local max frame size"))
      else if p.expecting_continuation && not (frame.header.type == frame_continuation)
      then some (fail_connection p protocol_error (codes "expected CONTINUATION"))
      else dispatch p frame

  -- The loop over the frames that are complete. A frame takes nine bytes at least, so the length of
  -- the buffer is fuel enough; `none` is an exception, or that the fuel ran out. It stops, too, where
  -- the behaviour is undefined.
  unfoldable pub receive_loop : ℕ → StepResult → Http2Protocol → Outcome
  receive_loop zero result p = elim (try_pop p.frame_codec) [
    | none ↦ some (result, p)
    | some popped ↦ none
  ]
  receive_loop (suc fuel) result p = elim (try_pop p.frame_codec) [
    | none ↦ some (result, p)
    | some (frame, rest) ↦ (do
      (r, p') ← receive_frame (record p { frame_codec = rest }) frame
      (if p'.closed || p'.undefined_behavior
          then some (merge_step_result result r, p')
          else receive_loop fuel (merge_step_result result r) p'))
  ]

  unfoldable pub receive_bytes : Http2Protocol → List ℕ → Outcome
  receive_bytes p bytes =
      let buffer = feed p.frame_codec bytes in
      if p.closed || p.transport_closed
      then some (no_result, p)
      else receive_loop (length buffer) no_result (record p { frame_codec = buffer })
