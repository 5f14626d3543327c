-- ===== src/Protocol/Sound/Submit.antt =====
-- submitRequest (src/http2_protocol.cpp) leaves a sound state.
use chttp.Prelude.{◌+◌, ◌≡◌, ◌∙◌, refl, some, none, false, inl, inr, Option-cases, arith}
use chttp.Hpack.HuffmanCoder.{HuffmanCoder}
use chttp.Hpack.Codec.{Hpack}
use chttp.Protocol.State.{
  Http2Protocol, Stream, Request, StepResult, can_submit_requests, set_request,
}
use chttp.Protocol.Emit.Block.{emit_request_headers-SplitsBlock}
use chttp.Protocol.Response.{get_status_code}
use chttp.Protocol.Submit.{refusal, open_stream, submit_request}
use chttp.Protocol.Submit.Ids.{
  begun, with_stream, opened, encoding, open_stream-id, open_stream-offset, submit_request_refused,
  submit_request_accepted,
}
use chttp.Protocol.Sound.{HasStatus, IsSoundStream, IsSound, IsReady}
use chttp.Protocol.Sound.Streams.{assign-IsSoundMap, widen-IsSoundMap}
use chttp.Protocol.Sound.Outcome.{Stays-runs, IsReady-IsSound}
use chttp.Protocol.Sound.Settings.{emit_pending_request_body-Stays}

refusal-closed :
    (p : Http2Protocol) (request : Request) → refusal p request ≡ none → p.closed ≡ false
unfolding refusal can_submit_requests
refusal-closed p request e = ground arith

open_stream-HasStatus : (p : Http2Protocol) (r : Request) → HasStatus (open_stream p r).resp.headers
unfolding open_stream set_request get_status_code
open_stream-HasStatus p r = refl

with_stream-IsReady :
    (p : Http2Protocol) (hpack : Hpack) (s : Stream)
    → IsReady p
    → s.stream_id ≡ p.next_stream_id
    → IsSoundStream (p.next_stream_id + 2) s
    → IsReady (with_stream p hpack s)
with_stream-IsReady p hpack s (h, l, live) same sound =
    let next = p.next_stream_id in
    (
      assign-IsSoundMap (next + 2) next s p.streams
          (widen-IsSoundMap next (next + 2) p.streams (omega arith) h) (same, sound),
      l,
      live,
    )

module _ (huffman : HuffmanCoder) where
  -- From a sound state submitRequest never throws and always ends, and leaves a sound state.
  pub submit_request-IsSound :
      (p : Http2Protocol) (request : Request)
      → IsSound p
      → (step : StepResult × Http2Protocol) × (submit_request huffman p request ≡ some step)
        × IsSound step.1
  submit_request-IsSound p request (h, (low, high), empty_or) =
      elim (Option-cases (refusal p request)) [
        | inr (code, e) ↦
            (_, submit_request_refused huffman p request code e, (h, (low, high), empty_or))
        | inl e ↦
            let next = p.next_stream_id in
            let s = open_stream p request in
            let hpack = (encoding huffman p request).1 in
            let (first, frames, s1, runs, b) =
              emit_request_headers-SplitsBlock p.max_frame_size s (encoding huffman p request).0
                (opened p) (omega arith) in
            let same : s1.stream_id ≡ next = b.same_id ∙ open_stream-id p request in
            let sound : IsSoundStream (next + 2) s1 = (
              rw (b.same_offset, open_stream-offset p request) (omega arith),
              rw same (omega arith),
              rw b.same_response (open_stream-HasStatus p request),
            ) in
            let ready =
              with_stream-IsReady p hpack (begun s1) (h, (low, high), refusal-closed p request e)
                same sound in
            let ((r2, p2), more, leaves) = Stays-runs _ _ (
              emit_pending_request_body-Stays (with_stream p hpack (begun s1)) (begun s1) _ ready
                sound) in
            (
              _,
              submit_request_accepted huffman p request _ r2 s1 p2 e runs more,
              IsReady-IsSound p2 leaves.ready,
            )
      ]
