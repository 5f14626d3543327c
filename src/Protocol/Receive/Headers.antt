-- ===== src/Protocol/Receive/Headers.antt =====
-- processHeadersFrame and processContinuationFrame (src/http2_protocol.cpp). The Huffman coder of the
-- header compression is a parameter.
use chttp.Prelude.{
  ℕ, ◌%◌, ◌==◌, ltb, leb, List, [], ◌++◌, none, some, Bool, true, false, not, ◌&&◌, ◌||◌,
  if◌then◌else◌, length, codes, ◌>>=◌,
}
use chttp.Prelude.Map.{lookup}
use chttp.Frame.Header.{has_any_flag, flag_end_stream, flag_end_headers, flag_priority}
use chttp.Frame.Raw.{RawFrame}
use chttp.Frame.HeadersFrame
use chttp.Frame.HeadersFrame.{HeadersFrame}
use chttp.Frame.ContinuationFrame
use chttp.Frame.ContinuationFrame.{ContinuationFrame}
use chttp.Hpack.HuffmanCoder.{HuffmanCoder}
use chttp.Hpack.Codec.{decode}
use chttp.Protocol.Constants.{
  ErrorCode, no_error, protocol_error, compression_error, stream_closed_error, enhance_your_calm,
}
use chttp.Protocol.State.{Http2Protocol, Stream, StepResult, no_result}
use chttp.Protocol.Checks.{accepted, rejected, validate_padded_payload}
use chttp.Protocol.Fail.{fail_stream, fail_connection, handle_header_block_error}
use chttp.Protocol.Emit.{is_closed}
use chttp.Protocol.Response.{store, decode_response_headers}
use chttp.Protocol.Receive.Data.{Outcome}

unfoldable pub too_large : Http2Protocol → List ℕ → Bool
too_large p block = ltb 0 p.max_header_list_size && ltb p.max_header_list_size (length block)

unfoldable pub coded_outcome :
    ℕ → ErrorCode × StepResult × Http2Protocol → StepResult × Http2Protocol
coded_outcome id (code, result, p) =
    if not (code == no_error) then handle_header_block_error p id code else (result, p)

module _ (huffman : HuffmanCoder) where
  -- A block whose stream is gone is decoded for the table's sake.
  unfoldable pub decode_ghost : Http2Protocol → List ℕ → List ℕ → StepResult × Http2Protocol
  decode_ghost p block debug_data =
      let (hpack, decoded) = decode huffman p.hpack block in
      let p' : Http2Protocol = record p { hpack = hpack } in
      elim decoded [
        | none ↦ fail_connection p' compression_error debug_data
        | some discarded ↦ (no_result, p')
      ]

  unfoldable pub headers_on_unknown_stream :
      Http2Protocol → HeadersFrame → StepResult × Http2Protocol
  headers_on_unknown_stream p f =
      let id = f.header.stream_id in
      if id % 2 == 0
      then fail_connection p protocol_error (codes "unexpected peer-initiated HEADERS stream")
      else if leb p.next_stream_id id
      then fail_connection p protocol_error (codes "HEADERS for never-opened stream")
      else if has_any_flag f.header flag_end_headers
      then decode_ghost p f.body (codes "HPACK decode failed on closed-stream HEADERS")
      else (
        no_result,
        record p {
          ghost_header_block = f.body;
          expecting_continuation = true;
          continuation_stream_id = id;
        },
      )

  -- A complete block.
  unfoldable pub finish_block : Http2Protocol → Stream → Bool → Outcome
  unfolding coded_outcome
  finish_block p s end_stream = do
    coded ← decode_response_headers huffman p s end_stream no_result
    some (coded_outcome s.stream_id coded)

  unfoldable pub headers_on_stream : Http2Protocol → Stream → HeadersFrame → Outcome
  headers_on_stream p s f =
      let s' : Stream = record s { pending_header_block = s.pending_header_block ++ f.body } in
      let end_stream = has_any_flag f.header flag_end_stream in
      if is_closed s.stream_state || s.remote_end_stream_received
      then some (fail_stream p s.stream_id stream_closed_error true)
      else if too_large p s'.pending_header_block
      then some (fail_connection (store p s') enhance_your_calm (codes "header block too large"))
      else if not (has_any_flag f.header flag_end_headers)
      then some (
        no_result,
        record (store p (record s' {
          waiting_for_continuation = true;
          pending_header_end_stream = end_stream;
        })) { expecting_continuation = true; continuation_stream_id = s.stream_id },
      )
      else finish_block p s' end_stream

  unfoldable pub process_headers : Http2Protocol → HeadersFrame → Outcome
  process_headers p f = elim (lookup ◌==◌ f.header.stream_id p.streams) [
    | none ↦ some (headers_on_unknown_stream p f)
    | some s ↦ headers_on_stream p s f
  ]

  unfoldable pub process_headers_frame : Http2Protocol → RawFrame → Outcome
  unfolding process_headers
  process_headers_frame p frame =
      let priority_prefix = if has_any_flag frame.header flag_priority then 5 else 0 in
      if frame.header.stream_id == 0
      then some (fail_connection p protocol_error (codes "HEADERS on stream 0"))
      else elim (validate_padded_payload frame priority_prefix) [
        | rejected code debug_data ↦ some (fail_connection p code debug_data)
        | accepted ↦ (do f ← HeadersFrame.of_raw frame; process_headers p f)
      ]

  -- The rest of a block whose stream is gone.
  unfoldable pub continue_ghost : Http2Protocol → ContinuationFrame → StepResult × Http2Protocol
  continue_ghost p f =
      let block = p.ghost_header_block ++ f.body in
      let text = codes "HPACK decode failed on closed-stream CONTINUATION" in
      let p' : Http2Protocol = record p {
        ghost_header_block = [];
        expecting_continuation = false;
        continuation_stream_id = 0;
      } in
      if too_large p block
      then fail_connection p enhance_your_calm (codes "header block too large")
      else if not (has_any_flag f.header flag_end_headers)
      then (no_result, record p { ghost_header_block = block })
      else decode_ghost p' block text

  unfoldable pub continue_block : Http2Protocol → Stream → ContinuationFrame → Outcome
  continue_block p s f =
      let s' : Stream = record s { pending_header_block = s.pending_header_block ++ f.body } in
      let p' : Http2Protocol = record p {
        expecting_continuation = false;
        continuation_stream_id = 0;
      } in
      if too_large p s'.pending_header_block
      then some (fail_connection (store p s') enhance_your_calm (codes "header block too large"))
      else if not (has_any_flag f.header flag_end_headers)
      then some (no_result, store p s')
      else finish_block p' (record s' { waiting_for_continuation = false })
          s.pending_header_end_stream

  unfoldable pub process_continuation : Http2Protocol → ContinuationFrame → Outcome
  process_continuation p f = elim (lookup ◌==◌ f.header.stream_id p.streams) [
    | none ↦ some (continue_ghost p f)
    | some s ↦ continue_block p s f
  ]

  unfoldable pub process_continuation_frame : Http2Protocol → RawFrame → Outcome
  unfolding process_continuation
  process_continuation_frame p frame =
      if frame.header.stream_id == 0
      then some (fail_connection p protocol_error (codes "CONTINUATION on stream 0"))
      else if not p.expecting_continuation
          || not (p.continuation_stream_id == frame.header.stream_id)
      then some (fail_connection p protocol_error (codes "unexpected CONTINUATION"))
      else process_continuation p (ContinuationFrame.of_raw frame)
