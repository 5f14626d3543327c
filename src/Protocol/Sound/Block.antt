-- ===== src/Protocol/Sound/Block.antt =====
-- The header blocks of a response (decodeResponseHeaders of src/http2_protocol.cpp) are handled
-- without an exception and leave a sound state.
use chttp.Prelude.{
  ℕ, ◌==◌, ◌≡◌, ◌∙◌, refl, subst, List, ◌++◌, ◌>>=◌, some, none, Bool, true, false, not, ◌&&◌, inl,
  inr, length, ltb, Bool-cases, Option-cases, if◌then◌else◌, codes, arith,
}
use Prim.{⊥}
use chttp.HeaderField.{HeaderField}
use chttp.Hpack.HuffmanCoder.{HuffmanCoder}
use chttp.Hpack.Codec.{decode}
use chttp.Protocol.Constants.{ErrorCode, no_error, protocol_error, compression_error}
use chttp.Protocol.State.{
  Http2Protocol, Stream, StepResult, no_result, append_event, stream_headers_received, has_method,
}
use chttp.Protocol.Checks.{header_list_size}
use chttp.Protocol.Response.{
  store, Scan, scan_headers, validate_response_header_block, add_headers, received,
  finalize_remote_stream, accept_headers, decode_response_headers, Coded,
}
use chttp.Protocol.Receive.Data.{Outcome}
use chttp.Protocol.Receive.Headers.{coded_outcome, finish_block}
use chttp.Protocol.Sound.{HasStatus, IsSoundStream, IsReady}
use chttp.Protocol.Sound.Status.{HasStatus-append, validate_response_header_block-HasStatus}
use chttp.Protocol.Sound.Outcome.{
  Kept, kept, Leaves, LeavesOpen, Good, Stays, LeavesOpen-Leaves, Good-some, Stays-some, split_if,
  unchanged_open, store-IsReady, handle_header_block_error-Leaves,
}
use chttp.Protocol.Sound.Data.{finalize_remote_stream-Stays}

-- The same of a step that ends in a code.
unfoldable StaysCoded : Kept → Coded → Type 0
StaysCoded codec none = ⊥
StaysCoded codec (some (code, r, p)) = LeavesOpen codec (r, p)

StaysCoded-some :
    (codec : Kept) (code : ErrorCode) (step : StepResult × Http2Protocol)
    → LeavesOpen codec step
    → StaysCoded codec (some (code, step.0, step.1))
unfolding StaysCoded
StaysCoded-some codec code step h = h

coded_after :
    (codec : Kept) (o : Outcome) (code : ErrorCode)
    → Stays codec o
    → StaysCoded codec (do (r, p) ← o; some (code, r, p))
unfolding Stays StaysCoded
coded_after codec none code bad = bad
coded_after codec (some step) code h = h

-- validateResponseHeaderBlock writes the expected length alone.
record Scanned (next : ℕ) (s : Stream) (r : ErrorCode × Bool × Stream) : Type 0 where
  sound : IsSoundStream next (r.2)
  same_final : (r.2).final_response_headers_received ≡ s.final_response_headers_received

validate-Scanned :
    (next : ℕ) (s : Stream) (headers : List HeaderField) (end_stream : Bool)
    → IsSoundStream next s
    → Scanned next s (validate_response_header_block s headers end_stream)
unfolding validate_response_header_block
validate-Scanned next s headers end_stream sound =
    let start : Scan = record {
      saw_regular_header = false;
      saw_status = false;
      status_code = 0;
      expected_content_length = s.expected_content_length;
    } in
    let (code, scan) = scan_headers s.final_response_headers_received start headers in
    let P = Scanned next s in
    split_if P (length headers == 0) (λ _. record { sound = sound; same_final = refl })
      (λ _.
        split_if P (not (code == no_error)) (λ _. record { sound = sound; same_final = refl })
          (λ _. record { sound = sound; same_final = refl }))

add_headers-IsSoundStream :
    (next : ℕ) (s s' : Stream) (headers : List HeaderField)
    → IsSoundStream next s
    → (s.final_response_headers_received ≡ false → HasStatus headers)
    → add_headers s headers ≡ some s'
    → IsSoundStream next s'
unfolding add_headers
add_headers-IsSoundStream next s s' headers (within, below, status) fresh e =
    elim (Bool-cases s.final_response_headers_received) [
      | inl t ↦ elim (Bool-cases (has_method s.rqst (codes "CONNECT"))) [
        | inl m ↦ absurd (ground (arith, t, m))
        | inr m ↦
            let same : record s {
              resp = record (s.resp) { trailers = s.resp.trailers ++ headers };
              trailing_headers_received = true;
            }
                ≡ s' =
              ground (arith, t, m) in
            subst (IsSoundStream next) same (within, below, status)
      ]
      | inr f ↦
          let same : record s {
            resp = record (s.resp) { headers = s.resp.headers ++ headers };
            final_response_headers_received = true;
          }
              ≡ s' =
            ground (arith, f) in
          subst (IsSoundStream next) same
            (within, below, HasStatus-append s.resp.headers headers status (fresh f))
    ]

received-StaysCoded :
    (p : Http2Protocol) (s : Stream) (end_stream : Bool) (result : StepResult)
    → IsReady p
    → IsSoundStream p.next_stream_id s
    → StaysCoded (kept p) (received p s end_stream result)
unfolding received
received-StaysCoded p s end_stream result ready sound =
    let result' = append_event result (stream_headers_received s.stream_id s.resp) in
    coded_after (kept p)
      (if end_stream then finalize_remote_stream p s result' else some (result', store p s))
      no_error
      (split_if (Stays (kept p)) end_stream
        (λ _. finalize_remote_stream-Stays p s result' ready sound)
        (λ _.
          Stays-some (kept p) _
            (unchanged_open result' (store p s) (store-IsReady p s ready sound))))

accept_headers-StaysCoded :
    (p : Http2Protocol) (s : Stream) (headers : List HeaderField) (end_stream : Bool)
    (result : StepResult)
    → IsReady p
    → IsSoundStream p.next_stream_id s
    → StaysCoded (kept p) (accept_headers p s headers end_stream result)
unfolding accept_headers
accept_headers-StaysCoded p s headers end_stream result ready sound =
    let scanned = validate-Scanned p.next_stream_id s headers end_stream sound in
    let (code, informational, s') = validate_response_header_block s headers end_stream in
    let stored = store-IsReady p s' ready scanned.sound in
    let P = StaysCoded (kept p) in
    split_if P (not (code == no_error))
      (λ _. StaysCoded-some (kept p) _ _ (unchanged_open _ (store p s') stored))
      (λ ok.
        split_if P informational
          (λ _. StaysCoded-some (kept p) _ _ (unchanged_open _ (store p s') stored))
          (λ _. elim (Option-cases (add_headers s' headers)) [
            | inl e ↦ rw e (
                StaysCoded-some (kept p) protocol_error (result, store p s')
                  (unchanged_open result (store p s') stored))
            | inr (s'', e) ↦
                let sound' =
                  add_headers-IsSoundStream p.next_stream_id s' s'' headers scanned.sound
                    (λ f.
                      validate_response_header_block-HasStatus s headers end_stream
                        (rw scanned.same_final at f) (ground arith))
                    e in
                rw e (received-StaysCoded p s'' end_stream result ready sound')
          ]))

module _ (huffman : HuffmanCoder) where
  decode_response_headers-StaysCoded :
      (p : Http2Protocol) (s : Stream) (end_stream : Bool) (result : StepResult)
      → IsReady p
      → IsSoundStream p.next_stream_id s
      → StaysCoded (kept p) (decode_response_headers huffman p s end_stream result)
  unfolding decode_response_headers
  decode_response_headers-StaysCoded p s end_stream result ready sound =
      let (hpack, decoded) = decode huffman p.hpack s.pending_header_block in
      let p' : Http2Protocol = record p { hpack = hpack } in
      let stored = store-IsReady p' s ready sound in
      elim (Option-cases decoded) [
        | inl e ↦
            rw (e, decode_response_headers)
              (StaysCoded-some (kept p) compression_error (result, store p' s)
                (unchanged_open _ (store p' s) stored))
        | inr (headers, e) ↦
            rw (e, decode_response_headers)
              (split_if (StaysCoded (kept p))
                (ltb 0 p.max_header_list_size
                  && ltb p.max_header_list_size (header_list_size headers))
                (λ _. StaysCoded-some (kept p) _ _ (unchanged_open _ (store p' s) stored))
                (λ _. accept_headers-StaysCoded p' _ headers end_stream result ready sound))
      ]

  -- A complete block is handled without an exception.
  pub finish_block-Good :
      (p : Http2Protocol) (s : Stream) (end_stream : Bool)
      → IsReady p
      → IsSoundStream p.next_stream_id s
      → Good (kept p) (finish_block huffman p s end_stream)
  unfolding finish_block StaysCoded coded_outcome
  finish_block-Good p s end_stream ready sound =
      coded (kept p) (decode_response_headers huffman p s end_stream no_result)
        (decode_response_headers-StaysCoded p s end_stream no_result ready sound)
    where
      coded :
          (codec : Kept) (c : Coded)
          → StaysCoded codec c
          → Good codec (do coded ← c; some (coded_outcome s.stream_id coded))
      coded codec none bad = absurd bad
      coded codec (some (code, r, p')) h =
          let failing = handle_header_block_error-Leaves p' s.stream_id code h.ready in
          Good-some codec _ (
            split_if (Leaves codec) (not (code == no_error))
              (λ _. record { sound = failing.sound; same_kept = failing.same_kept ∙ h.same_kept })
              (λ _. LeavesOpen-Leaves codec (r, p') h))
