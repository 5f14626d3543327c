-- ===== src/Protocol/Receive/Data.antt =====
-- processDataFrame and processDataOnUnknownStream (src/http2_protocol.cpp). `none` is an exception.
use chttp.Prelude.{
  ℕ, ◌+◌, ◌%◌, ◌==◌, leb, ◌++◌, Option, none, some, true, false, not, ◌||◌, if◌then◌else◌, length,
  codes, ◌>>=◌,
}
use chttp.Prelude.Int.{ℤ, pos, pos_part, ltb_ℤ, signed32}
use chttp.Prelude.Map.{lookup}
use chttp.Flow.InFlow
use chttp.Frame.Header.{has_any_flag, flag_end_stream}
use chttp.Frame.Raw.{RawFrame}
use chttp.Frame.DataFrame
use chttp.Frame.DataFrame.{DataFrame}
use chttp.Frame.WindowUpdateFrame
use chttp.Protocol.Constants.{protocol_error, flow_control_error, stream_closed_error}
use chttp.Protocol.State.{Http2Protocol, Stream, StepResult, no_result, append_outbound}
use chttp.Protocol.Checks.{accepted, rejected, validate_padded_payload}
use chttp.Protocol.Fail.{fail_stream, fail_connection, build_window_update_frame}
use chttp.Protocol.Emit.{is_closed}
use chttp.Protocol.Response.{store, expects_no_body, finalize_remote_stream}

abbrev pub Outcome : Type 0
Outcome = Option (StepResult × Http2Protocol)

-- A WINDOW_UPDATE, where the increment is positive.
unfoldable pub announce : StepResult → ℕ → ℤ → StepResult
announce result id increment =
    if ltb_ℤ (pos 0) increment
    then append_outbound result
        (WindowUpdateFrame.to_bytes (build_window_update_frame id (pos_part increment)))
    else result

unfoldable pub process_data_on_unknown_stream :
    Http2Protocol → DataFrame → StepResult × Http2Protocol
process_data_on_unknown_stream p f =
    let id = f.header.stream_id in
    let (taken, fits) = InFlow.take p.connection_inflow f.header.payload_length in
    let (inflow, refresh) = InFlow.add taken (signed32 f.header.payload_length) in
    let p' : Http2Protocol = record p { connection_inflow = inflow } in
    if id % 2 == 0
    then fail_connection p protocol_error (codes "unexpected peer-initiated DATA stream")
    else if leb p.next_stream_id id
    then fail_connection p protocol_error (codes "DATA for never-opened stream")
    else if not fits
    then fail_connection p flow_control_error (codes "old stream DATA exceeded connection window")
    else if ltb_ℤ refresh (pos 0)
    then fail_connection p' flow_control_error (codes "connection inflow window overflow")
    else (announce no_result 0 refresh, p')

-- The stream's window, once the connection's is refreshed, and the end of the stream.
unfoldable pub refresh_stream : Http2Protocol → Stream → DataFrame → StepResult → Outcome
refresh_stream p s f result =
    let (inflow, refresh) = InFlow.add s.inflow (signed32 f.header.payload_length) in
    let s' : Stream = record s { inflow = inflow } in
    let result' = announce result s.stream_id refresh in
    if ltb_ℤ refresh (pos 0)
    then some (fail_stream (store p s') s.stream_id flow_control_error true)
    else if has_any_flag f.header flag_end_stream
    then finalize_remote_stream p s' result'
    else some (result', store p s')

-- From "Accumulate body" on.
unfoldable pub accept_data : Http2Protocol → Stream → DataFrame → Outcome
accept_data p s f =
    let s' : Stream = record s {
      resp = record (s.resp) { body = s.resp.body ++ f.body };
      received_content_length = s.received_content_length + length f.body;
    } in
    let (inflow, refresh) = InFlow.add p.connection_inflow (signed32 f.header.payload_length) in
    let p' : Http2Protocol = record p { connection_inflow = inflow } in
    if ltb_ℤ refresh (pos 0)
    then some (
        fail_connection (store p' s') flow_control_error
          (codes "connection inflow window overflow"))
    else refresh_stream p' s' f (announce no_result 0 refresh)

-- Once the windows have given their bytes.
unfoldable pub take_data : Http2Protocol → Stream → DataFrame → Outcome
take_data p s f = do
  forbidden ← (if length f.body == 0 then some false else expects_no_body s)
  (if forbidden
      then some (fail_stream (store p s) s.stream_id protocol_error true)
      else accept_data p s f)

unfoldable pub process_data_on_stream : Http2Protocol → Stream → DataFrame → Outcome
process_data_on_stream p s f =
    let (conn, inflow, fits) =
      InFlow.take_inflows p.connection_inflow s.inflow f.header.payload_length in
    if is_closed s.stream_state || s.remote_end_stream_received
    then some (fail_stream p s.stream_id stream_closed_error true)
    else if not s.final_response_headers_received
    then some (fail_stream p s.stream_id protocol_error true)
    else if not fits
    then some (fail_connection p flow_control_error (codes "flow control exceeded"))
    else take_data (record p { connection_inflow = conn }) (record s { inflow = inflow }) f

unfoldable pub process_data : Http2Protocol → DataFrame → Outcome
process_data p f = elim (lookup ◌==◌ f.header.stream_id p.streams) [
  | none ↦ some (process_data_on_unknown_stream p f)
  | some s ↦ process_data_on_stream p s f
]

unfoldable pub process_data_frame : Http2Protocol → RawFrame → Outcome
unfolding process_data
process_data_frame p frame =
    if frame.header.stream_id == 0
    then some (fail_connection p protocol_error (codes "DATA on stream 0"))
    else elim (validate_padded_payload frame 0) [
      | rejected code debug_data ↦ some (fail_connection p code debug_data)
      | accepted ↦ (do f ← DataFrame.of_raw frame; process_data p f)
    ]
