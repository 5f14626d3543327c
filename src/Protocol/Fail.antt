-- ===== src/Protocol/Fail.antt =====
-- Errors of streams and of the connection, and the frames that report them (failStream,
-- failAllStreams, failConnection, handleHeaderBlockError and the build...Frame functions of
-- src/http2_protocol.cpp).
pub mod Closing
use chttp.Prelude.{
  ℕ, ◌+◌, ◌==◌, ltb, List, [], ◌∷◌, ◌++◌, map, none, some, Bool, true, false, ◌&&◌, not,
  if◌then◌else◌, length, codes,
}
use chttp.Prelude.Map.{Map, lookup, erase}
use chttp.Frame.Header.{header_for, frame_goaway, frame_rst_stream, frame_window_update}
use chttp.Frame.GoAwayFrame
use chttp.Frame.GoAwayFrame.{GoAwayFrame}
use chttp.Frame.RstStreamFrame
use chttp.Frame.RstStreamFrame.{RstStreamFrame}
use chttp.Frame.WindowUpdateFrame.{WindowUpdateFrame}
use chttp.Protocol.Constants.{ErrorCode, compression_error}
use chttp.Protocol.State.{
  Http2Protocol, Stream, StepResult, no_result, merge_step_result, append_outbound, append_event,
  goaway_sent, connection_error, connection_closed, stream_closed, response_failed,
}

unfoldable pub build_go_away_frame : Http2Protocol → ErrorCode → List ℕ → GoAwayFrame
build_go_away_frame p code debug_data = record {
  header = record (header_for frame_goaway 0) { payload_length = 8 + length debug_data };
  last_stream_id = p.last_peer_stream_id;
  error_code = code;
  body = debug_data;
}

unfoldable pub build_rst_stream_frame : ℕ → ErrorCode → RstStreamFrame
build_rst_stream_frame id code = record {
  header = record (header_for frame_rst_stream id) { payload_length = 4 };
  error_code = code;
}

unfoldable pub build_window_update_frame : ℕ → ℕ → WindowUpdateFrame
build_window_update_frame id increment = record {
  header = record (header_for frame_window_update id) { payload_length = 4 };
  window_size_increment = increment;
}

-- The frames and events of a stream that fails, and the header bytes that it leaves to be decoded.
rst_frames : Http2Protocol → ℕ → ErrorCode → Bool → List (List ℕ)
rst_frames p id code send_rst =
    if send_rst && (not p.closed && not p.transport_closed)
    then RstStreamFrame.to_bytes (build_rst_stream_frame id code) ∷ []
    else []

ghost_after : Http2Protocol → Stream → List ℕ
ghost_after p s =
    if s.waiting_for_continuation && ltb 0 (length s.pending_header_block)
    then s.pending_header_block
    else p.ghost_header_block

unfoldable pub fail_stream : Http2Protocol → ℕ → ErrorCode → Bool → StepResult × Http2Protocol
unfolding rst_frames ghost_after
fail_stream p id code send_rst = elim (lookup ◌==◌ id p.streams) [
  | none ↦ (no_result, p)
  | some s ↦ (
    record no_result {
      outbound = rst_frames p id code send_rst;
      events = stream_closed id code ∷ response_failed id code ∷ [];
    },
    record p { ghost_header_block = ghost_after p s; streams = erase ◌==◌ id p.streams },
  )
]

unfoldable pub fail_each :
    ErrorCode → List ℕ → StepResult → Http2Protocol → StepResult × Http2Protocol
fail_each code [] result p = (result, p)
fail_each code (id ∷ ids) result p =
    let (r, p') = fail_stream p id code false in fail_each code ids (merge_step_result result r) p'

abbrev pub ids_of : Map ℕ Stream → List ℕ
ids_of [] = []
ids_of ((id, s) ∷ streams) = id ∷ ids_of streams

unfoldable pub fail_all_streams :
    Http2Protocol → ErrorCode → StepResult → StepResult × Http2Protocol
fail_all_streams p code result = fail_each code (ids_of p.streams) result p

-- GOAWAY, unless one was sent or nobody could read it.
go_away : Http2Protocol → ErrorCode → List ℕ → StepResult × Http2Protocol
go_away p code debug_data =
    if not p.sent_goaway && not p.transport_closed
    then (
      record no_result {
        outbound = GoAwayFrame.to_bytes (build_go_away_frame p code debug_data) ∷ [];
        events = goaway_sent p.last_peer_stream_id code debug_data ∷ [];
      },
      record p { sent_goaway = true },
    )
    else (no_result, p)

unfoldable pub fail_connection : Http2Protocol → ErrorCode → List ℕ → StepResult × Http2Protocol
unfolding go_away
fail_connection p code debug_data =
    let (sent, p1) = go_away p code debug_data in
    let (result, p2) =
      fail_all_streams
        (record p1 {
          connection_error_code = code;
          connection_debug_data = debug_data;
          closed = true;
          expecting_continuation = false;
          continuation_stream_id = 0;
          ghost_header_block = [];
        })
        code sent in
    (append_event (append_event result (connection_error code)) (connection_closed code), p2)

unfoldable pub handle_header_block_error :
    Http2Protocol → ℕ → ErrorCode → StepResult × Http2Protocol
handle_header_block_error p id code =
    if code == compression_error
    then fail_connection p code (codes "HPACK decode error")
    else fail_stream p id code true
