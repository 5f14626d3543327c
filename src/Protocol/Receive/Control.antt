-- ===== src/Protocol/Receive/Control.antt =====
-- processPriorityFrame, processRstStreamFrame, processPushPromiseFrame, processPingFrame and
-- processGoAwayFrame (src/http2_protocol.cpp).
use chttp.Prelude.{
  ℕ, ◌%◌, ◌==◌, ltb, leb, List, [], ◌∷◌, none, some, true, false, not, ◌||◌, if◌then◌else◌, codes,
  ◌>>=◌,
}
use chttp.Prelude.Map.{Map, lookup}
use chttp.Frame.Header.{has_any_flag, set_flag, flag_ack, header_for, frame_ping}
use chttp.Frame.Raw.{RawFrame}
use chttp.Frame.RstStreamFrame
use chttp.Frame.RstStreamFrame.{RstStreamFrame}
use chttp.Frame.PushPromiseFrame
use chttp.Frame.PushPromiseFrame.{PushPromiseFrame}
use chttp.Frame.PingFrame
use chttp.Frame.PingFrame.{PingFrame}
use chttp.Frame.GoAwayFrame
use chttp.Frame.GoAwayFrame.{GoAwayFrame}
use chttp.Protocol.Constants.{protocol_error, frame_size_error}
use chttp.Protocol.State.{
  Http2Protocol, Stream, StepResult, no_result, append_outbound, append_event, merge_step_result,
  stream_reset_received, push_promise_received, ping_received, ping_ack_received, goaway_received,
}
use chttp.Protocol.Checks.{accepted, rejected, validate_padded_payload}
use chttp.Protocol.Fail.{fail_stream, fail_each, fail_connection, build_rst_stream_frame}
use chttp.Protocol.Receive.Data.{Outcome}

unfoldable pub process_priority_frame : Http2Protocol → RawFrame → Outcome
process_priority_frame p frame =
    if frame.header.stream_id == 0
    then some (fail_connection p protocol_error (codes "PRIORITY on stream 0"))
    else if not (frame.header.payload_length == 5)
    then some (
      append_outbound no_result (
          RstStreamFrame.to_bytes (build_rst_stream_frame frame.header.stream_id frame_size_error)),
      p,
    )
    else some (no_result, p)

-- RST_STREAM for a stream that is there.
unfoldable pub reset_stream : Http2Protocol → RstStreamFrame → StepResult × Http2Protocol
reset_stream p f =
    let id = f.header.stream_id in
    let (failed, p') = fail_stream p id f.error_code false in
    (merge_step_result (append_event no_result (stream_reset_received id f.error_code)) failed, p')

unfoldable pub process_rst_stream_frame : Http2Protocol → RawFrame → Outcome
process_rst_stream_frame p frame =
    if frame.header.stream_id == 0
    then some (fail_connection p protocol_error (codes "RST_STREAM on stream 0"))
    else if not (frame.header.payload_length == 4)
    then some (fail_connection p frame_size_error (codes "invalid RST_STREAM size"))
    else elim (lookup ◌==◌ frame.header.stream_id p.streams) [
      | none ↦
          if leb p.next_stream_id frame.header.stream_id
          then some (fail_connection p protocol_error (codes "RST_STREAM for idle stream"))
          else some (no_result, p)
      | some s ↦ (do f ← RstStreamFrame.of_raw frame; some (reset_stream p f))
    ]

unfoldable pub process_push_promise : Http2Protocol → PushPromiseFrame → StepResult × Http2Protocol
process_push_promise p f =
    let promised = f.promised_stream_id in
    let result = append_event no_result (push_promise_received f.header.stream_id promised) in
    let (failed, p') = fail_connection p protocol_error (codes "server push disabled") in
    if promised == 0 || not (promised % 2 == 0)
    then fail_connection p protocol_error (codes "invalid promised stream id parity")
    else if leb promised p.last_peer_stream_id
    then fail_connection p protocol_error (codes "promised stream id must be new")
    else if not p.enable_push
    then (merge_step_result result failed, p')
    else (result, p)

unfoldable pub process_push_promise_frame : Http2Protocol → RawFrame → Outcome
process_push_promise_frame p frame =
    if frame.header.stream_id == 0
    then some (fail_connection p protocol_error (codes "PUSH_PROMISE on stream 0"))
    else elim (validate_padded_payload frame 4) [
      | rejected code debug_data ↦ some (fail_connection p code debug_data)
      | accepted ↦ (do f ← PushPromiseFrame.of_raw frame; some (process_push_promise p f))
    ]

abbrev pub ping_ack : PingFrame → PingFrame
ping_ack ping = record {
  header = record (set_flag (header_for frame_ping 0) flag_ack) { payload_length = 8 };
  body = ping.body;
}

unfoldable pub process_ping_frame : Http2Protocol → RawFrame → Outcome
process_ping_frame p frame =
    let ping = PingFrame.of_raw frame in
    if not (frame.header.stream_id == 0)
    then some (fail_connection p protocol_error (codes "PING with non-zero stream id"))
    else if not (frame.header.payload_length == 8)
    then some (fail_connection p frame_size_error (codes "invalid PING size"))
    else if has_any_flag frame.header flag_ack
    then some (append_event no_result (ping_ack_received ping.body), p)
    else some (
      append_outbound (append_event no_result (ping_received ping.body))
          (PingFrame.to_bytes (ping_ack ping)),
      p,
    )

-- The ids above the last one that the peer will process.
unfoldable pub ids_above : ℕ → Map ℕ Stream → List ℕ
ids_above last [] = []
ids_above last ((id, s) ∷ streams) =
    let rest = ids_above last streams in if ltb last id then id ∷ rest else rest

unfoldable pub process_goaway : Http2Protocol → GoAwayFrame → StepResult × Http2Protocol
process_goaway p f =
    fail_each f.error_code (ids_above f.last_stream_id p.streams)
      (append_event no_result (goaway_received f.last_stream_id f.error_code f.body))
      (record p { received_goaway = true })

unfoldable pub process_go_away_frame : Http2Protocol → RawFrame → Outcome
process_go_away_frame p frame =
    if not (frame.header.stream_id == 0)
    then some (fail_connection p protocol_error (codes "GOAWAY with non-zero stream id"))
    else if ltb frame.header.payload_length 8
    then some (fail_connection p frame_size_error (codes "invalid GOAWAY"))
    else (do f ← GoAwayFrame.of_raw frame; some (process_goaway p f))
