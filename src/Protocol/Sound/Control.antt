-- ===== src/Protocol/Sound/Control.antt =====
-- PRIORITY, RST_STREAM, PUSH_PROMISE, PING and GOAWAY frames (src/http2_protocol.cpp) are handled
-- without an exception and leave a sound state.
use chttp.Prelude.{
  ◌%◌, ◌==◌, ◌≡◌, refl, ◌>>=◌, some, true, false, not, ◌||◌, inl, inr, length, ltb, leb,
  Option-cases, arith,
}
use chttp.Prelude.Map.{lookup}
use chttp.Frame.Header.{has_any_flag, flag_ack}
use chttp.Frame.Raw.{RawFrame}
use chttp.Frame.RstStreamFrame.{RstStreamFrame}
use chttp.Frame.PushPromiseFrame
use chttp.Frame.PushPromiseFrame.{PushPromiseFrame}
use chttp.Frame.GoAwayFrame.{GoAwayFrame}
use chttp.Protocol.State.{Http2Protocol}
use chttp.Protocol.Checks.{Verdict, accepted, rejected, validate_padded_payload}
use chttp.Protocol.Fail.{fail_connection}
use chttp.Protocol.Receive.Control.{
  process_priority_frame, reset_stream, process_rst_stream_frame, process_push_promise,
  process_push_promise_frame, process_ping_frame, ids_above, process_goaway, process_go_away_frame,
}
use chttp.Protocol.Sound.{IsReady}
use chttp.Protocol.Sound.Frames.{RstStreamFrame-of_raw, PushPromiseFrame-of_raw, GoAwayFrame-of_raw}
use chttp.Protocol.Sound.Outcome.{
  kept, Leaves, Good, LeavesOpen-Leaves, Good-some, split_if, Good-then, unchanged,
  fail_stream-Leaves, fail_each-LeavesOpen, fail_connection-Leaves,
}

pub process_priority_frame-Good :
    (p : Http2Protocol) (frame : RawFrame)
    → IsReady p
    → Good (kept p) (process_priority_frame p frame)
unfolding process_priority_frame
process_priority_frame-Good p frame ready =
    let codec = kept p in
    split_if (Good codec) (frame.header.stream_id == 0)
      (λ _. Good-some codec _ (fail_connection-Leaves p _ _ ready))
      (λ _.
        split_if (Good codec) (not (frame.header.payload_length == 5))
          (λ _. Good-some codec _ (unchanged _ p ready))
          (λ _. Good-some codec _ (unchanged _ p ready)))

reset_stream-Leaves :
    (p : Http2Protocol) (f : RstStreamFrame) → IsReady p → Leaves (kept p) (reset_stream p f)
unfolding reset_stream
reset_stream-Leaves p f ready =
    let failing = fail_stream-Leaves p f.header.stream_id f.error_code false ready in
    record { sound = failing.sound; same_kept = failing.same_kept }

pub process_rst_stream_frame-Good :
    (p : Http2Protocol) (frame : RawFrame)
    → frame.header.payload_length ≡ length frame.body
    → IsReady p
    → Good (kept p) (process_rst_stream_frame p frame)
unfolding process_rst_stream_frame
process_rst_stream_frame-Good p frame size ready =
    let codec = kept p in
    let P = Good codec in
    split_if P (frame.header.stream_id == 0)
      (λ _. Good-some codec _ (fail_connection-Leaves p _ _ ready))
      (λ _.
        split_if P (not (frame.header.payload_length == 4))
          (λ _. Good-some codec _ (fail_connection-Leaves p _ _ ready))
          (λ four. elim (Option-cases (lookup ◌==◌ frame.header.stream_id p.streams)) [
            | inl e ↦ rw e (
                split_if P (leb p.next_stream_id frame.header.stream_id)
                  (λ _. Good-some codec _ (fail_connection-Leaves p _ _ ready))
                  (λ _. Good-some codec _ (unchanged _ p ready)))
            | inr (s, e) ↦
                let (f, runs) = RstStreamFrame-of_raw frame (ground arith) in
                rw e (Good-then codec _ runs (Good-some codec _ (reset_stream-Leaves p f ready)))
          ]))

process_push_promise-Leaves :
    (p : Http2Protocol) (f : PushPromiseFrame)
    → IsReady p
    → Leaves (kept p) (process_push_promise p f)
unfolding process_push_promise
process_push_promise-Leaves p f ready =
    let promised = f.promised_stream_id in
    let P = Leaves (kept p) in
    split_if P (promised == 0 || not (promised % 2 == 0)) (λ _. fail_connection-Leaves p _ _ ready)
      (λ _.
        split_if P (leb promised p.last_peer_stream_id) (λ _. fail_connection-Leaves p _ _ ready)
          (λ _.
            split_if P (not p.enable_push)
              (λ _.
                let failing = fail_connection-Leaves p _ _ ready in
                record { sound = failing.sound; same_kept = failing.same_kept })
              (λ _. unchanged _ p ready)))

pub process_push_promise_frame-Good :
    (p : Http2Protocol) (frame : RawFrame)
    → frame.header.payload_length ≡ length frame.body
    → IsReady p
    → Good (kept p) (process_push_promise_frame p frame)
unfolding process_push_promise_frame
process_push_promise_frame-Good p frame size ready =
    split_if (Good (kept p)) (frame.header.stream_id == 0)
      (λ _. Good-some (kept p) _ (fail_connection-Leaves p _ _ ready))
      (λ _. by_verdict (validate_padded_payload frame 4) refl)
  where
    by_verdict :
        (v : Verdict)
        → validate_padded_payload frame 4 ≡ v
        → Good (kept p) (elim v [
          | rejected code debug_data ↦ some (fail_connection p code debug_data)
          | accepted ↦ (do f ← PushPromiseFrame.of_raw frame; some (process_push_promise p f))
        ])
    by_verdict (rejected code debug_data) e =
        Good-some (kept p) _ (fail_connection-Leaves p _ _ ready)
    by_verdict accepted e =
        let (f, runs) = PushPromiseFrame-of_raw frame size e in
        Good-then (kept p) _ runs (Good-some (kept p) _ (process_push_promise-Leaves p f ready))

pub process_ping_frame-Good :
    (p : Http2Protocol) (frame : RawFrame) → IsReady p → Good (kept p) (process_ping_frame p frame)
unfolding process_ping_frame
process_ping_frame-Good p frame ready =
    let codec = kept p in
    split_if (Good codec) (not (frame.header.stream_id == 0))
      (λ _. Good-some codec _ (fail_connection-Leaves p _ _ ready))
      (λ _.
        split_if (Good codec) (not (frame.header.payload_length == 8))
          (λ _. Good-some codec _ (fail_connection-Leaves p _ _ ready))
          (λ _.
            split_if (Good codec) (has_any_flag frame.header flag_ack)
              (λ _. Good-some codec _ (unchanged _ p ready))
              (λ _. Good-some codec _ (unchanged _ p ready))))

process_goaway-Leaves :
    (p : Http2Protocol) (f : GoAwayFrame) → IsReady p → Leaves (kept p) (process_goaway p f)
unfolding process_goaway
process_goaway-Leaves p f ready = LeavesOpen-Leaves (kept p) _ (
    fail_each-LeavesOpen f.error_code (ids_above f.last_stream_id p.streams) _ (kept p)
      (record p { received_goaway = true }) ready refl)

pub process_go_away_frame-Good :
    (p : Http2Protocol) (frame : RawFrame)
    → frame.header.payload_length ≡ length frame.body
    → IsReady p
    → Good (kept p) (process_go_away_frame p frame)
unfolding process_go_away_frame
process_go_away_frame-Good p frame size ready =
    let codec = kept p in
    split_if (Good codec) (not (frame.header.stream_id == 0))
      (λ _. Good-some codec _ (fail_connection-Leaves p _ _ ready))
      (λ _.
        split_if (Good codec) (ltb frame.header.payload_length 8)
          (λ _. Good-some codec _ (fail_connection-Leaves p _ _ ready))
          (λ long.
            let (f, runs) = GoAwayFrame-of_raw frame (ground arith) in
            Good-then codec _ runs (Good-some codec _ (process_goaway-Leaves p f ready))))
