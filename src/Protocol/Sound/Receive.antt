-- ===== src/Protocol/Sound/Receive.antt =====
-- receiveFrame and receiveBytes (src/http2_protocol.cpp): every frame is handled without an
-- exception, and the loop over the complete frames ends.
use chttp.Prelude.{
  ℕ, zero, suc, ◌≤◌, ◌==◌, ◌≡◌, ◌⊎◌, ◌∙◌, refl, ap, List, ◌>>=◌, some, none, true, not, ◌&&◌, ◌||◌,
  inl, inr, length, ltb, Bool-cases, Option-cases, arith, length-take, length-drop, drop,
}
use Prim.{⊥}
use chttp.Frame.Header.{
  frame_data, frame_headers, frame_priority, frame_rst_stream, frame_settings, frame_push_promise,
  frame_ping, frame_goaway, frame_window_update, frame_continuation,
}
use chttp.Frame.Raw.{RawFrame}
use chttp.FrameCodec.{FrameCodec, feed, try_pop}
use chttp.FrameCodec.Pop.{try_pop-Pops, try_pop_shorter}
use chttp.Hpack.HuffmanCoder.{HuffmanCoder}
use chttp.Protocol.State.{Http2Protocol, StepResult, no_result}
use chttp.Protocol.Receive.{dispatch, receive_frame, receive_loop, receive_bytes}
use chttp.Protocol.Receive.Data.{Outcome}
use chttp.Protocol.Sound.{IsSound, IsReady, OrUndefined, or_undefined}
use chttp.Protocol.Sound.Outcome.{
  Kept, kept, Leaves, Good, Good-some, split_if, unchanged, fail_connection-Leaves,
}
use chttp.Protocol.Sound.Data.{process_data_frame-Good}
use chttp.Protocol.Sound.Headers.{process_headers_frame-Good, process_continuation_frame-Good}
use chttp.Protocol.Sound.Settings.{process_setting_frame-Good}
use chttp.Protocol.Sound.WindowUpdate.{process_window_update_frame-Good}
use chttp.Protocol.Sound.Control.{
  process_priority_frame-Good, process_rst_stream_frame-Good, process_push_promise_frame-Good,
  process_ping_frame-Good, process_go_away_frame-Good,
}

-- A popped frame has the payload that its header says.
try_pop-length :
    (buffer rest : FrameCodec) (f : RawFrame)
    → try_pop buffer ≡ some (f, rest)
    → f.header.payload_length ≡ length f.body
try_pop-length buffer rest f e =
    let pops = try_pop-Pops buffer f rest e in
    rw pops.payload (
      omega (
        arith,
        pops.complete,
        length-take f.header.payload_length (drop 9 buffer),
        length-drop 9 buffer,
      ))

-- What receiveBytes leaves: a sound state, and no complete frame unless it has stopped.
pub record Received (next : ℕ) (step : StepResult × Http2Protocol) : Type 0 where
  pub sound : IsSound (step.1)
  pub same_next : (step.1).next_stream_id ≡ next
  pub drained :
      ((step.1).closed ≡ true)
      ⊎ ((step.1).transport_closed ≡ true)
      ⊎ ((step.1).undefined_behavior ≡ true)
      ⊎ (try_pop (step.1).frame_codec ≡ none)

unfoldable Finishes : ℕ → Outcome → Type 0
Finishes next none = ⊥
Finishes next (some step) = Received next step

Finishes-some :
    (next : ℕ) (step : StepResult × Http2Protocol) → Received next step → Finishes next (some step)
unfolding Finishes
Finishes-some next step h = h

Finishes-after :
    (next : ℕ) (codec : Kept) (o : Outcome) (f : StepResult × Http2Protocol → Outcome)
    → Good codec o
    → ((step : StepResult × Http2Protocol) → Leaves codec step → Finishes next (f step))
    → Finishes next (o >>= f)
unfolding Good Finishes
Finishes-after next codec none f bad rest = absurd bad
Finishes-after next codec (some step) f good rest = rest step good

Finishes-runs :
    (next : ℕ) (o : Outcome)
    → Finishes next o
    → (step : StepResult × Http2Protocol) × (o ≡ some step) × Received next step
unfolding Finishes
Finishes-runs next none bad = absurd bad
Finishes-runs next (some step) h = (step, refl, h)

stopped :
    (next : ℕ) (result : StepResult) (p : Http2Protocol)
    → IsReady p
    → p.next_stream_id ≡ next
    → try_pop p.frame_codec ≡ none
    → Received next (result, p)
stopped next result p (h, l, live) same e = record {
  sound = (h, l, inl live);
  same_next = same;
  drained = inr (inr (inr e));
}

module _ (huffman : HuffmanCoder) where
  dispatch-Good :
      (p : Http2Protocol) (frame : RawFrame)
      → frame.header.payload_length ≡ length frame.body
      → IsReady p
      → Good (kept p) (dispatch huffman p frame)
  unfolding dispatch
  dispatch-Good p frame size ready =
      let t = frame.header.type in
      let P = Good (kept p) in
      split_if P (t == frame_data) (λ _. process_data_frame-Good p frame size ready)
        (λ _.
          split_if P (t == frame_headers)
            (λ _. process_headers_frame-Good huffman p frame size ready)
            (λ _.
              split_if P (t == frame_priority) (λ _. process_priority_frame-Good p frame ready)
                (λ _.
                  split_if P (t == frame_rst_stream)
                    (λ _. process_rst_stream_frame-Good p frame size ready)
                    (λ _.
                      split_if P (t == frame_settings)
                        (λ _. process_setting_frame-Good p frame ready)
                        (λ _.
                          split_if P (t == frame_push_promise)
                            (λ _. process_push_promise_frame-Good p frame size ready)
                            (λ _.
                              split_if P (t == frame_ping)
                                (λ _. process_ping_frame-Good p frame ready)
                                (λ _.
                                  split_if P (t == frame_goaway)
                                    (λ _. process_go_away_frame-Good p frame size ready)
                                    (λ _.
                                      split_if P (t == frame_window_update)
                                        (λ _. process_window_update_frame-Good p frame size ready)
                                        (λ _.
                                          split_if P (t == frame_continuation)
                                            (λ _.
                                              process_continuation_frame-Good huffman p frame ready)
                                            (λ _.
                                              Good-some (kept p) _ (unchanged _ p ready)))))))))))

  receive_frame-Good :
      (p : Http2Protocol) (frame : RawFrame)
      → frame.header.payload_length ≡ length frame.body
      → IsReady p
      → Good (kept p) (receive_frame huffman p frame)
  unfolding receive_frame
  receive_frame-Good p frame size ready =
      let codec = kept p in
      let P = Good codec in
      split_if P (not p.got_peer_settings && not (frame.header.type == frame_settings))
        (λ _. Good-some codec _ (fail_connection-Leaves p _ _ ready))
        (λ _.
          split_if P (ltb p.local_max_frame_size frame.header.payload_length)
            (λ _. Good-some codec _ (fail_connection-Leaves p _ _ ready))
            (λ _.
              split_if P (p.expecting_continuation && not (frame.header.type == frame_continuation))
                (λ _. Good-some codec _ (fail_connection-Leaves p _ _ ready))
                (λ _. dispatch-Good p frame size ready)))

  receive_loop-Finishes :
      (fuel next : ℕ) (result : StepResult) (p : Http2Protocol)
      → length p.frame_codec ≤ fuel
      → IsReady p
      → p.next_stream_id ≡ next
      → Finishes next (receive_loop huffman fuel result p)
  unfolding receive_loop
  receive_loop-Finishes zero next result p enough ready same =
      elim (Option-cases (try_pop p.frame_codec)) [
        | inl e ↦
            rw (e, receive_loop)
              (Finishes-some next (result, p) (stopped next result p ready same e))
        | inr ((f, rest), e) ↦ absurd (omega (arith, try_pop_shorter p.frame_codec f rest e))
      ]
  receive_loop-Finishes (suc fuel) next result p enough ready same =
      elim (Option-cases (try_pop p.frame_codec)) [
        | inl e ↦
            rw (e, receive_loop)
              (Finishes-some next (result, p) (stopped next result p ready same e))
        | inr ((f, rest), e) ↦
            rw (e, receive_loop)
              (Finishes-after next (rest, p.next_stream_id)
                (receive_frame huffman (record p { frame_codec = rest }) f) _
                (receive_frame-Good (record p { frame_codec = rest }) f
                  (try_pop-length p.frame_codec rest f e) ready)
                (λ step h.
                  split_if (Finishes next) ((step.1).closed || (step.1).undefined_behavior)
                    (λ t. Finishes-some next _ (record {
                      sound = h.sound;
                      same_next = ap (λ k. k.1) h.same_kept ∙ same;
                      drained = elim (Bool-cases (step.1).closed) [
                        | inl c ↦ inl c
                        | inr c ↦ inr (inr (inl (ground arith)))
                      ];
                    }))
                    (λ live.
                      let (sound, legal, _) = h.sound in
                      receive_loop-Finishes fuel next _ step.1
                        (omega (
                          arith,
                          ap (λ k. length k.0) h.same_kept,
                          try_pop_shorter p.frame_codec f rest e,
                        ))
                        (sound, legal, ground arith) (ap (λ k. k.1) h.same_kept ∙ same))))
      ]

  receive_bytes-Finishes :
      (p : Http2Protocol) (bytes : List ℕ)
      → IsSound p
      → Finishes p.next_stream_id (receive_bytes huffman p bytes)
  unfolding receive_bytes
  receive_bytes-Finishes p bytes (h, l, empty_or) =
      let buffer = feed p.frame_codec bytes in
      split_if (Finishes p.next_stream_id) (p.closed || p.transport_closed)
        (λ t. Finishes-some p.next_stream_id _ (record {
          sound = (h, l, empty_or);
          same_next = refl;
          drained = elim (Bool-cases p.closed) [ inl c ↦ inl c | inr c ↦ inr (inl (ground arith)) ];
        }))
        (λ f.
          receive_loop-Finishes (length buffer) p.next_stream_id no_result
            (record p { frame_codec = buffer }) (omega arith) (h, l, ground arith) refl)

  pub receive_bytes_runs :
      (p : Http2Protocol) (bytes : List ℕ)
      → IsSound p
      → (step : StepResult × Http2Protocol) × (receive_bytes huffman p bytes ≡ some step)
        × Received p.next_stream_id step
  receive_bytes_runs p bytes sound =
      Finishes-runs p.next_stream_id (receive_bytes huffman p bytes)
        (receive_bytes-Finishes p bytes sound)

  -- From a sound state receiveBytes, whatever the bytes are, comes to behaviour that C++ leaves
  -- undefined (the loop of processSettingFrame erases the stream that it stands at, or the
  -- difference of two window sizes overflows), or it ends without an exception. Then it leaves a
  -- sound state with the same next id, and unless the connection or the transport is closed no
  -- frame that is complete.
  pub receive_bytes-Received :
      (p : Http2Protocol) (bytes : List ℕ)
      → IsSound p
      → (step : StepResult × Http2Protocol) × (receive_bytes huffman p bytes ≡ some step)
        × OrUndefined step.1 (Received p.next_stream_id step)
  receive_bytes-Received p bytes sound =
      let (step, runs, h) = receive_bytes_runs p bytes sound in (step, runs, or_undefined step.1 h)
