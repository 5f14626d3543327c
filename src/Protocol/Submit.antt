-- ===== src/Protocol/Submit.antt =====
-- submitRequest (src/http2_protocol.cpp). The Huffman coder of the header compression is a
-- parameter.
pub mod Ids
use chttp.Prelude.{
  ℕ, ◌+◌, ◌-◌, ◌==◌, leb, ltb, List, [], ◌∷◌, Option, none, some, Bool, true, false, ◌||◌, not,
  if◌then◌else◌, length, ◌>>=◌,
}
use chttp.Prelude.Int.{signed32}
use chttp.Prelude.Map.{Map, assign}
use chttp.HeaderField.{HeaderField, field}
use chttp.Flow.InFlow
use chttp.Flow.OutFlow
use chttp.Hpack.HuffmanCoder.{HuffmanCoder}
use chttp.Hpack.Codec.{encode}
use chttp.Protocol.Constants.{ErrorCode, protocol_error, state_open, state_half_closed_local}
use chttp.Protocol.State.{
  Http2Protocol, Stream, Request, StepResult, no_result, append_event, response_failed,
  stream_opened, new_stream, set_request, is_valid, can_submit_requests,
}
use chttp.Protocol.Emit.{emit_request_headers, emit_pending_request_body}

unfoldable pub build_request_header_fields : Map (List ℕ) (List ℕ) → List HeaderField
build_request_header_fields [] = []
build_request_header_fields ((name, value) ∷ headers) =
    field name value ∷ build_request_header_fields headers

abbrev pub refused_stream : ErrorCode
refused_stream = 0x7

-- Why a request is refused, in the code's order; `none` if it is not.
unfoldable pub refusal : Http2Protocol → Request → Option ErrorCode
refusal p request =
    if not (can_submit_requests p)
    then some refused_stream
    else if not (is_valid request)
    then some protocol_error
    else if leb p.max_concurrent_streams (length p.streams)
    then some refused_stream
    else if p.next_stream_id == 0 || ltb (0x7fffffff - 1) p.next_stream_id
    then some refused_stream
    else none

-- The stream of a request, its windows from the settings.
unfoldable pub open_stream : Http2Protocol → Request → Stream
open_stream p request =
    let s = set_request (new_stream p.next_stream_id) request in
    let window = signed32 p.initial_window_size in
    record s { inflow = InFlow.init s.inflow window; outflow = (OutFlow.add s.outflow window).0 }

module _ (huffman : HuffmanCoder) where
  -- The request is sent on a new stream; `none` is an exception, or that emission does not end.
  unfoldable pub submit_accepted : Http2Protocol → Request → Option (StepResult × Http2Protocol)
  submit_accepted p request = do
    let id = p.next_stream_id
    let s = open_stream p request
    let (encoded, hpack) = encode huffman p.hpack (build_request_header_fields request.headers)
    (result, s1) ←
        emit_request_headers p.max_frame_size s encoded (append_event no_result (stream_opened id))
    let s2 : Stream = record s1 {
      request_started = true;
      stream_state = (if s1.local_end_stream_sent then state_half_closed_local else state_open);
    }
    let p1 : Http2Protocol = record p {
      next_stream_id = id + 2;
      hpack = hpack;
      streams = assign ◌==◌ id s2 p.streams;
    }
    (result', p2) ← emit_pending_request_body p1 s2 result
    some (record result' { has_submitted_stream = true; submitted_stream_id = id }, p2)

  unfoldable pub submit_request : Http2Protocol → Request → Option (StepResult × Http2Protocol)
  submit_request p request = elim (refusal p request) [
    | some code ↦ some (append_event no_result (response_failed 0 code), p)
    | none ↦ submit_accepted p request
  ]
