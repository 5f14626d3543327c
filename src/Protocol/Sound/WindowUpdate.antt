-- ===== src/Protocol/Sound/WindowUpdate.antt =====
-- WINDOW_UPDATE frames (src/http2_protocol.cpp) are handled without an exception and leave a sound
-- state.
use chttp.Prelude.{ℕ, ◌%◌, ◌^◌, ◌==◌, ◌≡◌, refl, not, inl, inr, length, leb, Option-cases, arith}
use chttp.Prelude.Int.{pos}
use chttp.Prelude.Map.{lookup}
use chttp.Flow.OutFlow
use chttp.Flow.OutFlow.{OutFlow}
use chttp.Frame.Raw.{RawFrame}
use chttp.Frame.WindowUpdateFrame.{WindowUpdateFrame}
use chttp.Protocol.State.{Http2Protocol, Stream, StepResult}
use chttp.Protocol.Fail.{ids_of}
use chttp.Protocol.Response.{store}
use chttp.Protocol.Receive.Settings.{
  update_connection, update_stream, update_window, process_window_update,
  process_window_update_frame,
}
use chttp.Protocol.Sound.{IsSoundStream, IsReady}
use chttp.Protocol.Sound.Streams.{lookup-IsSoundEntry}
use chttp.Protocol.Sound.Frames.{WindowUpdateFrame-of_raw}
use chttp.Protocol.Sound.Outcome.{
  kept, Good, Good-some, Stays-Good, split_if, Good-then, unchanged, store-IsReady,
  fail_stream-Leaves, fail_connection-Leaves,
}
use chttp.Protocol.Sound.Settings.{emit_each-Stays, emit_pending_request_body-Stays}

update_connection-Good :
    (p : Http2Protocol) (increment : ℕ) (result : StepResult)
    → IsReady p
    → Good (kept p) (update_connection p increment result)
unfolding update_connection
update_connection-Good p increment result ready =
    let codec = kept p in
    split_if (Good codec) (not (OutFlow.add p.connection_out_flow (pos increment)).1)
      (λ _. Good-some codec _ (fail_connection-Leaves p _ _ ready))
      (λ _. Stays-Good codec _ (emit_each-Stays (ids_of p.streams) result codec _ ready refl))

update_stream-Good :
    (p : Http2Protocol) (s : Stream) (increment : ℕ) (result : StepResult)
    → IsReady p
    → IsSoundStream p.next_stream_id s
    → Good (kept p) (update_stream p s increment result)
unfolding update_stream
update_stream-Good p s increment result ready sound =
    let codec = kept p in
    let (flow, fits) = OutFlow.add s.outflow (pos increment) in
    let s' : Stream = record s { outflow = flow } in
    split_if (Good codec) (not fits) (λ _. Good-some codec _ (fail_stream-Leaves p _ _ _ ready))
      (λ _. Stays-Good codec _ (
        emit_pending_request_body-Stays (store p s') s' result (store-IsReady p s' ready sound)
          sound))

update_window-Good :
    (p : Http2Protocol) (id increment : ℕ) (result : StepResult)
    → IsReady p
    → Good (kept p) (update_window p id increment result)
unfolding update_window
update_window-Good p id increment result ready =
    let codec = kept p in
    split_if (Good codec) (id == 0) (λ _. update_connection-Good p increment result ready)
      (λ _. elim (Option-cases (lookup ◌==◌ id p.streams)) [
        | inl e ↦ rw e (
            split_if (Good codec) (leb p.next_stream_id id)
              (λ _. Good-some codec _ (fail_connection-Leaves p _ _ ready))
              (λ _. Good-some codec _ (unchanged result p ready)))
        | inr (s, e) ↦
            let (same, sound) = lookup-IsSoundEntry p.next_stream_id id s p.streams ready.0 e in
            rw e (update_stream-Good p s increment result ready sound)
      ])

process_window_update-Good :
    (p : Http2Protocol) (f : WindowUpdateFrame)
    → IsReady p
    → Good (kept p) (process_window_update p f)
unfolding process_window_update
process_window_update-Good p f ready =
    let codec = kept p in
    split_if (Good codec) (f.window_size_increment % 2 ^ 31 == 0)
      (λ _.
        split_if (Good codec) (f.header.stream_id == 0)
          (λ _. Good-some codec _ (fail_connection-Leaves p _ _ ready))
          (λ _. Good-some codec _ (fail_stream-Leaves p _ _ _ ready)))
      (λ _. update_window-Good p _ _ _ ready)

pub process_window_update_frame-Good :
    (p : Http2Protocol) (frame : RawFrame)
    → frame.header.payload_length ≡ length frame.body
    → IsReady p
    → Good (kept p) (process_window_update_frame p frame)
unfolding process_window_update_frame
process_window_update_frame-Good p frame size ready =
    let codec = kept p in
    split_if (Good codec) (not (frame.header.payload_length == 4))
      (λ _. Good-some codec _ (fail_connection-Leaves p _ _ ready))
      (λ four.
        let (f, runs) = WindowUpdateFrame-of_raw frame (ground arith) in
        Good-then codec _ runs (process_window_update-Good p f ready))
