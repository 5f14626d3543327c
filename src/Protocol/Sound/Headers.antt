-- ===== src/Protocol/Sound/Headers.antt =====
-- HEADERS and CONTINUATION frames (src/http2_protocol.cpp) are handled without an exception and
-- leave a sound state.
use chttp.Prelude.{
  ℕ, ◌%◌, ◌==◌, ◌≡◌, refl, List, [], ◌++◌, ◌>>=◌, some, true, false, not, ◌||◌, inl, inr, length,
  leb, Option-cases, if◌then◌else◌,
}
use chttp.Prelude.Map.{lookup}
use chttp.Frame.Header.{has_any_flag, flag_end_headers, flag_priority}
use chttp.Frame.Raw.{RawFrame}
use chttp.Frame.HeadersFrame
use chttp.Frame.HeadersFrame.{HeadersFrame}
use chttp.Frame.ContinuationFrame.{ContinuationFrame}
use chttp.Hpack.HuffmanCoder.{HuffmanCoder}
use chttp.Hpack.Codec.{decode}
use chttp.Protocol.Constants.{compression_error}
use chttp.Protocol.State.{Http2Protocol, Stream, no_result}
use chttp.Protocol.Checks.{Verdict, accepted, rejected, validate_padded_payload}
use chttp.Protocol.Fail.{fail_connection}
use chttp.Protocol.Emit.{is_closed}
use chttp.Protocol.Response.{store}
use chttp.Protocol.Receive.Headers.{
  too_large, decode_ghost, headers_on_unknown_stream, headers_on_stream, process_headers,
  process_headers_frame, continue_ghost, continue_block, process_continuation,
  process_continuation_frame,
}
use chttp.Protocol.Sound.{IsSoundStream, IsReady}
use chttp.Protocol.Sound.Streams.{lookup-IsSoundEntry}
use chttp.Protocol.Sound.Frames.{HeadersFrame-of_raw}
use chttp.Protocol.Sound.Outcome.{
  kept, Leaves, Good, Good-some, split_if, Good-then, unchanged, store-IsReady, fail_stream-Leaves,
  fail_connection-Leaves,
}
use chttp.Protocol.Sound.Block.{finish_block-Good}

module _ (huffman : HuffmanCoder) where
  decode_ghost-Leaves :
      (p : Http2Protocol) (block debug_data : List ℕ)
      → IsReady p
      → Leaves (kept p) (decode_ghost huffman p block debug_data)
  unfolding decode_ghost
  decode_ghost-Leaves p block debug_data ready =
      let (hpack, decoded) = decode huffman p.hpack block in
      let p' : Http2Protocol = record p { hpack = hpack } in
      elim (Option-cases decoded) [
        | inl e ↦
            rw (e, decode_ghost) (fail_connection-Leaves p' compression_error debug_data ready)
        | inr (headers, e) ↦ rw (e, decode_ghost) (unchanged no_result p' ready)
      ]

  headers_on_unknown_stream-Leaves :
      (p : Http2Protocol) (f : HeadersFrame)
      → IsReady p
      → Leaves (kept p) (headers_on_unknown_stream huffman p f)
  unfolding headers_on_unknown_stream
  headers_on_unknown_stream-Leaves p f ready =
      let id = f.header.stream_id in
      let P = Leaves (kept p) in
      split_if P (id % 2 == 0) (λ _. fail_connection-Leaves p _ _ ready)
        (λ _.
          split_if P (leb p.next_stream_id id) (λ _. fail_connection-Leaves p _ _ ready)
            (λ _.
              split_if P (has_any_flag f.header flag_end_headers)
                (λ _. decode_ghost-Leaves p f.body _ ready)
                (λ _.
                  unchanged no_result
                    (record p {
                      ghost_header_block = f.body;
                      expecting_continuation = true;
                      continuation_stream_id = id;
                    })
                    ready)))

  headers_on_stream-Good :
      (p : Http2Protocol) (s : Stream) (f : HeadersFrame)
      → IsReady p
      → IsSoundStream p.next_stream_id s
      → Good (kept p) (headers_on_stream huffman p s f)
  unfolding headers_on_stream is_closed
  headers_on_stream-Good p s f ready sound =
      let s' : Stream = record s { pending_header_block = s.pending_header_block ++ f.body } in
      let P = Good (kept p) in
      split_if P (is_closed s.stream_state || s.remote_end_stream_received)
        (λ _. Good-some (kept p) _ (fail_stream-Leaves p _ _ _ ready))
        (λ _.
          split_if P (too_large p s'.pending_header_block)
            (λ _.
              Good-some (kept p) _
                (fail_connection-Leaves (store p s') _ _ (store-IsReady p s' ready sound)))
            (λ _.
              split_if P (not (has_any_flag f.header flag_end_headers))
                (λ _. Good-some (kept p) _ (
                  unchanged no_result
                    (record (store p _) {
                      expecting_continuation = true;
                      continuation_stream_id = s.stream_id;
                    })
                    (store-IsReady p _ ready sound)))
                (λ _. finish_block-Good huffman p s' _ ready sound)))

  process_headers-Good :
      (p : Http2Protocol) (f : HeadersFrame)
      → IsReady p
      → Good (kept p) (process_headers huffman p f)
  unfolding process_headers
  process_headers-Good p f ready = elim (Option-cases (lookup ◌==◌ f.header.stream_id p.streams)) [
    | inl e ↦
        rw (e, process_headers) (Good-some (kept p) _ (headers_on_unknown_stream-Leaves p f ready))
    | inr (s, e) ↦
        let (same, sound) =
          lookup-IsSoundEntry p.next_stream_id f.header.stream_id s p.streams ready.0 e in
        rw (e, process_headers) (headers_on_stream-Good p s f ready sound)
  ]

  pub process_headers_frame-Good :
      (p : Http2Protocol) (frame : RawFrame)
      → frame.header.payload_length ≡ length frame.body
      → IsReady p
      → Good (kept p) (process_headers_frame huffman p frame)
  unfolding process_headers_frame
  process_headers_frame-Good p frame size ready =
      let prefix = if has_any_flag frame.header flag_priority then 5 else 0 in
      split_if (Good (kept p)) (frame.header.stream_id == 0)
        (λ _. Good-some (kept p) _ (fail_connection-Leaves p _ _ ready))
        (λ _. by_verdict (validate_padded_payload frame prefix) refl)
    where
      by_verdict :
          (v : Verdict)
          → validate_padded_payload frame (if has_any_flag frame.header flag_priority then 5 else 0)
            ≡ v
          → Good (kept p) (elim v [
            | rejected code debug_data ↦ some (fail_connection p code debug_data)
            | accepted ↦ (do f ← HeadersFrame.of_raw frame; process_headers huffman p f)
          ])
      by_verdict (rejected code debug_data) e =
          Good-some (kept p) _ (fail_connection-Leaves p _ _ ready)
      by_verdict accepted e =
          let (f, runs) = HeadersFrame-of_raw frame size e in
          Good-then (kept p) _ runs (process_headers-Good p f ready)

  continue_ghost-Leaves :
      (p : Http2Protocol) (f : ContinuationFrame)
      → IsReady p
      → Leaves (kept p) (continue_ghost huffman p f)
  unfolding continue_ghost
  continue_ghost-Leaves p f ready =
      let block = p.ghost_header_block ++ f.body in
      let P = Leaves (kept p) in
      split_if P (too_large p block) (λ _. fail_connection-Leaves p _ _ ready)
        (λ _.
          split_if P (not (has_any_flag f.header flag_end_headers))
            (λ _. unchanged no_result (record p { ghost_header_block = block }) ready)
            (λ _.
              decode_ghost-Leaves
                (record p {
                  ghost_header_block = [];
                  expecting_continuation = false;
                  continuation_stream_id = 0;
                })
                block _ ready))

  continue_block-Good :
      (p : Http2Protocol) (s : Stream) (f : ContinuationFrame)
      → IsReady p
      → IsSoundStream p.next_stream_id s
      → Good (kept p) (continue_block huffman p s f)
  unfolding continue_block
  continue_block-Good p s f ready sound =
      let s' : Stream = record s { pending_header_block = s.pending_header_block ++ f.body } in
      let p' : Http2Protocol = record p {
        expecting_continuation = false;
        continuation_stream_id = 0;
      } in
      let P = Good (kept p) in
      let stored = store-IsReady p s' ready sound in
      split_if P (too_large p s'.pending_header_block)
        (λ _. Good-some (kept p) _ (fail_connection-Leaves (store p s') _ _ stored))
        (λ _.
          split_if P (not (has_any_flag f.header flag_end_headers))
            (λ _. Good-some (kept p) _ (unchanged no_result (store p s') stored))
            (λ _.
              finish_block-Good huffman p' (record s' { waiting_for_continuation = false }) _ ready
                sound))

  process_continuation-Good :
      (p : Http2Protocol) (f : ContinuationFrame)
      → IsReady p
      → Good (kept p) (process_continuation huffman p f)
  unfolding process_continuation
  process_continuation-Good p f ready =
      elim (Option-cases (lookup ◌==◌ f.header.stream_id p.streams)) [
        | inl e ↦
            rw (e, process_continuation) (Good-some (kept p) _ (continue_ghost-Leaves p f ready))
        | inr (s, e) ↦
            let (same, sound) =
              lookup-IsSoundEntry p.next_stream_id f.header.stream_id s p.streams ready.0 e in
            rw (e, process_continuation) (continue_block-Good p s f ready sound)
      ]

  pub process_continuation_frame-Good :
      (p : Http2Protocol) (frame : RawFrame)
      → IsReady p
      → Good (kept p) (process_continuation_frame huffman p frame)
  unfolding process_continuation_frame
  process_continuation_frame-Good p frame ready =
      let P = Good (kept p) in
      split_if P (frame.header.stream_id == 0)
        (λ _. Good-some (kept p) _ (fail_connection-Leaves p _ _ ready))
        (λ _.
          split_if P
            (not p.expecting_continuation
              || not (p.continuation_stream_id == frame.header.stream_id))
            (λ _. Good-some (kept p) _ (fail_connection-Leaves p _ _ ready))
            (λ _. process_continuation-Good p _ ready))
