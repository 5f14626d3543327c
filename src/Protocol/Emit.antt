-- ===== src/Protocol/Emit.antt =====
-- The frames of a request: emitRequestHeaders and emitPendingRequestBody of src/http2_protocol.cpp.
-- The frames of a loop are a list, which the caller serializes. A loop runs on fuel, which
-- Emit/Block.antt and Emit/Body.antt show to be enough.
pub mod Block
pub mod Body
use chttp.Prelude.{
  ℕ, zero, suc, ◌+◌, ◌-◌, ◌==◌, min, ltb, List, [], ◌∷◌, ◌++◌, map, Option, none, some, Bool, true,
  false, ◌&&◌, ◌||◌, not, if◌then◌else◌, length, take, drop, ◌>>=◌,
}
use chttp.Prelude.Int.{ℤ, pos, pos_part}
use chttp.Prelude.Map.{assign, erase}
use chttp.Flow.OutFlow
use chttp.Flow.OutFlow.{OutFlow}
use chttp.Frame.Header.{set_flag, flag_end_headers, flag_end_stream}
use chttp.Frame.DataFrame
use chttp.Frame.DataFrame.{DataFrame}
use chttp.Frame.HeadersFrame
use chttp.Frame.HeadersFrame.{HeadersFrame}
use chttp.Frame.ContinuationFrame
use chttp.Frame.ContinuationFrame.{ContinuationFrame}
use chttp.Protocol.Constants.{StreamState, state_closed, state_half_closed_local, no_error}
use chttp.Protocol.State.{
  Http2Protocol, Stream, StepResult, append_event, stream_closed, has_body, remaining_body_size,
}

-- The HEADERS frame, what its frame leaves of the block, and the stream.
unfoldable pub first_headers : ℕ → Stream → List ℕ → HeadersFrame × List ℕ × Stream
first_headers max_frame_size s encoded =
    let n = min max_frame_size (length encoded) in
    let h = HeadersFrame.for_stream s.stream_id in
    let frame = record h {
      header = record (h.header) { payload_length = n };
      body = take n encoded;
    } in
    if not (n == length encoded)
    then (frame, drop n encoded, s)
    else if has_body s
    then (record frame { header = set_flag frame.header flag_end_headers }, [], s)
    else (
      record frame { header = set_flag (set_flag frame.header flag_end_headers) flag_end_stream },
      [],
      record s { local_end_stream_sent = true },
    )

-- The loop over the rest of the block. A round takes one byte at least, if frames may have one.
unfoldable pub continuations : ℕ → ℕ → ℕ → List ℕ → Option (List ContinuationFrame)
continuations fuel max_frame_size id [] = some []
continuations zero max_frame_size id (b ∷ span) = none
continuations (suc fuel) max_frame_size id (b ∷ span) = do
  let n = min max_frame_size (length (b ∷ span))
  let f = ContinuationFrame.for_stream id
  let rest = drop n (b ∷ span)
  let header = record (f.header) { payload_length = n }
  let header = (if length rest == 0 then set_flag header flag_end_headers else header)
  frames ← continuations fuel max_frame_size id rest
  some (record { header = header; body = take n (b ∷ span) } ∷ frames)

unfoldable pub emit_request_headers :
    ℕ → Stream → List ℕ → StepResult → Option (StepResult × Stream)
emit_request_headers max_frame_size s encoded result = do
  let (frame, span, s') = first_headers max_frame_size s encoded
  frames ← continuations (length span) max_frame_size s.stream_id span
  some (
    record result {
      outbound =
          result.outbound ++ (HeadersFrame.to_bytes frame ∷ map ContinuationFrame.to_bytes frames);
    },
    s',
  )

-- The size of the next DATA frame: what the frame may have, the body has and the windows allow.
unfoldable pub chunk_size : ℕ → OutFlow → Stream → ℕ
chunk_size max_frame_size conn s =
    min (min max_frame_size (remaining_body_size s))
      (pos_part (OutFlow.available (some conn) s.outflow))

-- `outflow.take`; `none` is the exception.
unfoldable pub spend : OutFlow → OutFlow → ℕ → Option (OutFlow × OutFlow)
spend conn f n = do
  (shared, f') ← OutFlow.take (some conn) f (pos n)
  conn' ← shared
  some (conn', f')

-- One round: the frame, the connection's window and the stream.
unfoldable pub emit_chunk : ℕ → ℕ → OutFlow → Stream → Option (DataFrame × OutFlow × Stream)
emit_chunk max_frame_size n conn s = do
  let f = DataFrame.for_stream s.stream_id
  let header = record (f.header) { payload_length = n }
  let end = s.request_body_offset + n
  let last = (length s.rqst.body - end) == 0
  (conn', outflow') ← spend conn s.outflow n
  some (
    record f {
      header = (if last then set_flag header flag_end_stream else header);
      body = take n (drop s.request_body_offset s.rqst.body);
    },
    conn',
    record s {
      outflow = outflow';
      request_body_offset = end;
      local_end_stream_sent = last || s.local_end_stream_sent;
    },
  )

-- The loop. A round takes one byte at least, so what is left of the body is fuel enough.
unfoldable pub emit_body : ℕ → ℕ → OutFlow → Stream → Option (List DataFrame × OutFlow × Stream)
emit_body zero max_frame_size conn s = some ([], conn, s)
emit_body (suc fuel) max_frame_size conn s =
    let n = chunk_size max_frame_size conn s in
    let rest = λ (conn' : OutFlow) (s' : Stream). emit_body fuel max_frame_size conn' s' in
    if n == 0 then some ([], conn, s) else (do
      (frame, conn', s') ← emit_chunk max_frame_size n conn s
      (frames, conn'', s'') ← rest conn' s'
      some (frame ∷ frames, conn'', s''))

unfoldable pub is_closed : StreamState → Bool
is_closed state_closed = true
is_closed s = false

-- After the loop: a stream that both ends have finished is closed and erased.
unfoldable pub after_body : Http2Protocol → Stream → StepResult → StepResult × Http2Protocol
after_body p s result =
    if not s.local_end_stream_sent
    then (result, record p { streams = assign ◌==◌ s.stream_id s p.streams })
    else if s.remote_end_stream_received
    then (
      append_event result (stream_closed s.stream_id no_error),
      record p { streams = erase ◌==◌ s.stream_id p.streams },
    )
    else (
      result,
      record p {
        streams =
            assign ◌==◌ s.stream_id (record s { stream_state = state_half_closed_local }) p.streams;
      },
    )

-- The stream `s` is that of `p` with the same id; `none` is the exception of `outflow.take`.
unfoldable pub emit_pending_request_body :
    Http2Protocol → Stream → StepResult → Option (StepResult × Http2Protocol)
unfolding is_closed
emit_pending_request_body p s result =
    if s.local_end_stream_sent || is_closed s.stream_state then some (result, p) else (do
      (frames, conn, s') ←
          emit_body (remaining_body_size s) p.max_frame_size p.connection_out_flow s
      some (
          after_body (record p { connection_out_flow = conn }) s'
            (record result { outbound = result.outbound ++ map DataFrame.to_bytes frames })))
