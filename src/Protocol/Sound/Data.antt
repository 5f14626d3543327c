-- ===== src/Protocol/Sound/Data.antt =====
-- DATA frames (src/http2_protocol.cpp) are handled without an exception and leave a sound state.
use chttp.Prelude.{
  ◌+◌, ◌==◌, ◌≡◌, refl, ◌++◌, ◌>>=◌, some, Bool, true, false, not, ◌||◌, inl, inr, length, leb,
  Bool-cases, Option-cases, if◌then◌else◌, ◌%◌, arith,
}
use chttp.Prelude.Int.{ℤ, pos, negsuc, ltb_ℤ, signed32}
use chttp.Prelude.Map.{lookup}
use chttp.Flow.InFlow
use chttp.Frame.Header.{has_any_flag, flag_end_stream}
use chttp.Frame.Raw.{RawFrame}
use chttp.Frame.DataFrame
use chttp.Frame.DataFrame.{DataFrame}
use chttp.Protocol.Constants.{protocol_error}
use chttp.Protocol.State.{Http2Protocol, Stream, StepResult}
use chttp.Protocol.Checks.{Verdict, accepted, rejected, validate_padded_payload}
use chttp.Protocol.Checks.Padding.{validate_padded_payload-TakesApart}
use chttp.Protocol.Fail.{fail_stream, fail_connection}
use chttp.Protocol.Emit.{is_closed}
use chttp.Protocol.Response.{
  store, expects_no_body, get_status_code, length_mismatch, finalize_remote_stream,
}
use chttp.Protocol.Receive.Data.{
  process_data_on_unknown_stream, refresh_stream, accept_data, take_data, process_data_on_stream,
  process_data, process_data_frame,
}
use chttp.Protocol.Sound.{HasStatus, IsSoundStream, IsReady}
use chttp.Protocol.Sound.Streams.{lookup-IsSoundEntry, erase-IsSoundMap}
use chttp.Protocol.Sound.Outcome.{
  kept, Leaves, LeavesOpen, Good, Stays, Good-some, Stays-some, Stays-Good, split_if, Good-then,
  unchanged, unchanged_open, store-IsReady, fail_stream-Leaves, fail_stream-LeavesOpen,
  fail_connection-Leaves,
}

expects_no_body_total :
    (s : Stream) → HasStatus s.resp.headers → (b : Bool) × (expects_no_body s ≡ some b)
unfolding expects_no_body
expects_no_body_total s h = elim (Option-cases (get_status_code s.resp.headers)) [
  | inl e ↦ absurd (ground (arith, e))
  | inr (n, e) ↦ rw e (_, refl)
]

length_mismatch_total :
    (s : Stream) → HasStatus s.resp.headers → (b : Bool) × (length_mismatch s ≡ some b)
unfolding length_mismatch
length_mismatch_total s h =
    let (b, e) = expects_no_body_total s h in by_length b e s.expected_content_length refl
  where
    by_length :
        (b : Bool)
        → expects_no_body s ≡ some b
        → (n : ℤ) → s.expected_content_length ≡ n
        → (b : Bool) × (length_mismatch s ≡ some b)
    by_length b e (pos n) same = rw (same, e, length_mismatch) (_, refl)
    by_length b e (negsuc n) same = rw (same, length_mismatch) (_, refl)

pub finalize_remote_stream-Stays :
    (p : Http2Protocol) (s : Stream) (result : StepResult)
    → IsReady p
    → IsSoundStream p.next_stream_id s
    → Stays (kept p) (finalize_remote_stream p s result)
unfolding finalize_remote_stream get_status_code
finalize_remote_stream-Stays p s result ready sound =
    let s' : Stream = record s { remote_end_stream_received = true } in
    let (within, below, status) = sound in
    let (mismatch, runs) = length_mismatch_total s' status in
    let (h, l, live) = ready in
    let failing =
      fail_stream-LeavesOpen (store p s') s.stream_id protocol_error true
        (store-IsReady p s' ready sound) in
    let P = LeavesOpen (kept p) in
    rw runs (
      Stays-some (kept p) _ (
        split_if P mismatch (λ _. record { ready = failing.ready; same_kept = failing.same_kept })
          (λ _.
            split_if P s.local_end_stream_sent
              (λ _. record {
                ready = (erase-IsSoundMap p.next_stream_id s.stream_id p.streams h, l, live);
                same_kept = refl;
              })
              (λ _. unchanged_open _ (store p _) (store-IsReady p _ ready (within, below, refl))))))

pub process_data_on_unknown_stream-Leaves :
    (p : Http2Protocol) (f : DataFrame)
    → IsReady p
    → Leaves (kept p) (process_data_on_unknown_stream p f)
unfolding process_data_on_unknown_stream
process_data_on_unknown_stream-Leaves p f ready =
    let id = f.header.stream_id in
    let P = Leaves (kept p) in
    let (taken, fits) = InFlow.take p.connection_inflow f.header.payload_length in
    let (inflow, refresh) = InFlow.add taken (signed32 f.header.payload_length) in
    let p' : Http2Protocol = record p { connection_inflow = inflow } in
    split_if P (id % 2 == 0) (λ _. fail_connection-Leaves p _ _ ready)
      (λ _.
        split_if P (leb p.next_stream_id id) (λ _. fail_connection-Leaves p _ _ ready)
          (λ _.
            split_if P (not fits) (λ _. fail_connection-Leaves p _ _ ready)
              (λ _.
                split_if P (ltb_ℤ refresh (pos 0)) (λ _. fail_connection-Leaves p' _ _ ready)
                  (λ _. unchanged _ p' ready))))

refresh_stream-Good :
    (p : Http2Protocol) (s : Stream) (f : DataFrame) (result : StepResult)
    → IsReady p
    → IsSoundStream p.next_stream_id s
    → Good (kept p) (refresh_stream p s f result)
unfolding refresh_stream
refresh_stream-Good p s f result ready sound =
    let (inflow, refresh) = InFlow.add s.inflow (signed32 f.header.payload_length) in
    let s' : Stream = record s { inflow = inflow } in
    let stored = store-IsReady p s' ready sound in
    let P = Good (kept p) in
    split_if P (ltb_ℤ refresh (pos 0))
      (λ _. Good-some (kept p) _ (fail_stream-Leaves (store p s') _ _ _ stored))
      (λ _.
        split_if P (has_any_flag f.header flag_end_stream)
          (λ _. Stays-Good (kept p) _ (finalize_remote_stream-Stays p s' _ ready sound))
          (λ _. Good-some (kept p) _ (unchanged _ (store p s') stored)))

accept_data-Good :
    (p : Http2Protocol) (s : Stream) (f : DataFrame)
    → IsReady p
    → IsSoundStream p.next_stream_id s
    → Good (kept p) (accept_data p s f)
unfolding accept_data
accept_data-Good p s f ready sound =
    let s' : Stream = record s {
      resp = record (s.resp) { body = s.resp.body ++ f.body };
      received_content_length = s.received_content_length + length f.body;
    } in
    let (inflow, refresh) = InFlow.add p.connection_inflow (signed32 f.header.payload_length) in
    let p' : Http2Protocol = record p { connection_inflow = inflow } in
    split_if (Good (kept p)) (ltb_ℤ refresh (pos 0))
      (λ _.
        Good-some (kept p) _
          (fail_connection-Leaves (store p' s') _ _ (store-IsReady p' s' ready sound)))
      (λ _. refresh_stream-Good p' s' f _ ready sound)

take_data-Good :
    (p : Http2Protocol) (s : Stream) (f : DataFrame)
    → IsReady p
    → IsSoundStream p.next_stream_id s
    → Good (kept p) (take_data p s f)
unfolding take_data
take_data-Good p s f ready sound =
    let (within, below, status) = sound in
    let (no_body, runs) = expects_no_body_total s status in
    let decide = λ (forbidden : Bool).
      if forbidden
      then some (fail_stream (store p s) s.stream_id protocol_error true)
      else accept_data p s f in
    let either : (b : Bool) → Good (kept p) (decide b) = λ b.
      split_if (Good (kept p)) b
        (λ _.
          Good-some (kept p) _
            (fail_stream-Leaves (store p s) _ _ _ (store-IsReady p s ready sound)))
        (λ _. accept_data-Good p s f ready sound) in
    elim (Bool-cases (length f.body == 0)) [
      | inl t ↦ rw t (either false)
      | inr e ↦ rw (e, runs) (either no_body)
    ]

process_data_on_stream-Good :
    (p : Http2Protocol) (s : Stream) (f : DataFrame)
    → IsReady p
    → IsSoundStream p.next_stream_id s
    → Good (kept p) (process_data_on_stream p s f)
unfolding process_data_on_stream is_closed
process_data_on_stream-Good p s f ready sound =
    let (conn, inflow, fits) =
      InFlow.take_inflows p.connection_inflow s.inflow f.header.payload_length in
    let P = Good (kept p) in
    split_if P (is_closed s.stream_state || s.remote_end_stream_received)
      (λ _. Good-some (kept p) _ (fail_stream-Leaves p _ _ _ ready))
      (λ _.
        split_if P (not s.final_response_headers_received)
          (λ _. Good-some (kept p) _ (fail_stream-Leaves p _ _ _ ready))
          (λ _.
            split_if P (not fits) (λ _. Good-some (kept p) _ (fail_connection-Leaves p _ _ ready))
              (λ _.
                take_data-Good (record p { connection_inflow = conn })
                  (record s { inflow = inflow }) f ready sound)))

process_data-Good :
    (p : Http2Protocol) (f : DataFrame) → IsReady p → Good (kept p) (process_data p f)
unfolding process_data
process_data-Good p f ready = elim (Option-cases (lookup ◌==◌ f.header.stream_id p.streams)) [
  | inl e ↦
      rw (e, process_data) (Good-some (kept p) _ (process_data_on_unknown_stream-Leaves p f ready))
  | inr (s, e) ↦
      let (same, sound) =
        lookup-IsSoundEntry p.next_stream_id f.header.stream_id s p.streams ready.0 e in
      rw (e, process_data) (process_data_on_stream-Good p s f ready sound)
]

pub process_data_frame-Good :
    (p : Http2Protocol) (frame : RawFrame)
    → frame.header.payload_length ≡ length frame.body
    → IsReady p
    → Good (kept p) (process_data_frame p frame)
unfolding process_data_frame
process_data_frame-Good p frame size ready =
    let codec = kept p in
    split_if (Good codec) (frame.header.stream_id == 0)
      (λ _. Good-some codec _ (fail_connection-Leaves p _ _ ready))
      (λ _. by_verdict (validate_padded_payload frame 0) refl)
  where
    by_verdict :
        (v : Verdict)
        → validate_padded_payload frame 0 ≡ v
        → Good (kept p) (elim v [
          | rejected code debug_data ↦ some (fail_connection p code debug_data)
          | accepted ↦ (do f ← DataFrame.of_raw frame; process_data p f)
        ])
    by_verdict (rejected code debug_data) e =
        Good-some (kept p) _ (fail_connection-Leaves p _ _ ready)
    by_verdict accepted e =
        let (f, t) = validate_padded_payload-TakesApart frame size e in
        Good-then (kept p) _ t.runs (process_data-Good p f ready)
