-- ===== src/Protocol/Control.antt =====
-- The public operations of Http2Protocol that the owner calls, submitRequest apart: start,
-- cancelStream, sendPing, close and onTransportClosed (src/http2_protocol.cpp).
use chttp.Prelude.{ℕ, ◌+◌, ◌%◌, ◌^◌, List, [], ◌∷◌, true, ◌||◌, not, if◌then◌else◌, codes, ◌++◌}
use chttp.Bytes.{append_be}
use chttp.Frame.Header.{header_for, frame_ping}
use chttp.Frame.PingFrame
use chttp.Frame.PingFrame.{PingFrame}
use chttp.Frame.GoAwayFrame
use chttp.Frame.SettingFrame
use chttp.Protocol.Constants.{ErrorCode, no_error, protocol_error, cancel}
use chttp.Protocol.State.{
  Http2Protocol, StepResult, no_result, append_outbound, append_event, connection_started,
  connection_error, connection_closed, transport_closed, goaway_sent,
}
use chttp.Protocol.Fail.{build_go_away_frame, fail_stream, fail_all_streams}
use chttp.Protocol.Settings.{build_local_settings_frame}

abbrev pub http2_connection_preface : List ℕ
http2_connection_preface =
    codes "PRI * HTTP/2.0" ++ (13 ∷ 10 ∷ 13 ∷ 10 ∷ codes "SM" ++ (13 ∷ 10 ∷ 13 ∷ 10 ∷ []))

unfoldable pub start : Http2Protocol → StepResult × Http2Protocol
start p = if p.started then (append_event no_result (connection_error protocol_error), p) else (
  record no_result {
    outbound = http2_connection_preface ∷ SettingFrame.to_bytes (build_local_settings_frame p) ∷ [];
    events = connection_started ∷ [];
  },
  record p { sent_connection_preface = true; sent_local_settings = true; started = true },
)

unfoldable pub cancel_stream : Http2Protocol → ℕ → ErrorCode → StepResult × Http2Protocol
cancel_stream p id code = if p.closed then (no_result, p) else fail_stream p id code true

-- The frame's payload is the counter, a uint64_t.
unfoldable pub send_ping : Http2Protocol → StepResult × Http2Protocol
send_ping p =
    if p.closed || not p.started
    then (no_result, p)
    else let counter = (p.ping_counter + 1) % 2 ^ 64 in
      let frame : PingFrame = record {
        header = record (header_for frame_ping 0) { payload_length = 8 };
        body = append_be 8 counter;
      } in
      (append_outbound no_result (PingFrame.to_bytes frame), record p { ping_counter = counter })

-- GOAWAY with NO_ERROR, unless one was sent.
say_goodbye : Http2Protocol → StepResult × Http2Protocol
say_goodbye p =
    if not p.sent_goaway
    then (
      record no_result {
        outbound = GoAwayFrame.to_bytes (build_go_away_frame p no_error []) ∷ [];
        events = goaway_sent p.last_peer_stream_id no_error [] ∷ [];
      },
      record p { sent_goaway = true },
    )
    else (no_result, p)

unfoldable pub close : Http2Protocol → StepResult × Http2Protocol
unfolding say_goodbye
close p =
    let (sent, p1) = say_goodbye p in
    let (result, p2) = fail_all_streams p1 cancel sent in
    if p.closed
    then (no_result, p)
    else (append_event result (connection_closed no_error), record p2 { closed = true })

fail_unless_closed : Http2Protocol → StepResult × Http2Protocol
fail_unless_closed p = if not p.closed then fail_all_streams p cancel no_result else (no_result, p)

unfoldable pub on_transport_closed : Http2Protocol → StepResult × Http2Protocol
unfolding fail_unless_closed
on_transport_closed p =
    let (result, p1) = fail_unless_closed (record p { transport_closed = true }) in
    (
      append_event (append_event result transport_closed)
          (connection_closed p1.connection_error_code),
      record p1 { closed = true },
    )
