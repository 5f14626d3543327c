-- ===== src/Protocol/Sound/Settings.antt =====
-- SETTINGS frames, and what they and WINDOW_UPDATE frames make the request bodies send
-- (src/http2_protocol.cpp): in the model the handlers give no exception and leave a sound state, also
-- where they set `undefined_behavior`.
use chttp.Prelude.{
  ℕ, ◌%◌, ◌==◌, ◌≡◌, ◌∙◌, refl, List, [], ◌∷◌, true, not, ◌||◌, inl, inr, ltb, Option-cases, codes,
  arith,
}
use chttp.Prelude.Map.{lookup}
use chttp.Frame.Header.{has_any_flag, flag_ack}
use chttp.Frame.Raw.{RawFrame}
use chttp.Frame.SettingFrame.{SettingFrame}
use chttp.Protocol.Constants.{
  ErrorCode, no_error, header_table_size, enable_push_parameter, max_concurrent_streams_parameter,
  initial_window_size_parameter, max_frame_size_parameter, max_header_list_size_parameter,
  maximum_window_size, minimum_max_frame_size, maximum_max_frame_size,
}
use chttp.Protocol.State.{Http2Protocol, Stream, StepResult, remaining_body_size}
use chttp.Protocol.Settings.{
  apply_initial_window_size, apply_setting, apply_settings, apply_peer_settings,
}
use chttp.Protocol.Emit.{after_body, emit_pending_request_body, is_closed}
use chttp.Protocol.Emit.Body.{emit_body-EmitsBody}
use chttp.Protocol.Fail.{ids_of}
use chttp.Protocol.Response.{store}
use chttp.Protocol.Receive.Settings.{
  emit_for, emit_each, has_stream, emit_iterating, process_settings, process_setting_frame,
}
use chttp.Protocol.Sound.{IsSoundStream, IsReady}
use chttp.Protocol.Sound.Streams.{lookup-IsSoundEntry, erase-IsSoundMap, shift_windows-IsSoundMap}
use chttp.Protocol.Sound.Frames.{SettingFrame-of_raw}
use chttp.Protocol.Sound.Outcome.{
  Kept, kept, LeavesOpen, Good, Stays, Good-some, Stays-some, Stays-Good, split_if, Good-then,
  Good-after, Stays-after, Stays-same, unchanged, unchanged_open, store-IsReady,
  fail_connection-Leaves,
}

after_body-LeavesOpen :
    (p : Http2Protocol) (s : Stream) (result : StepResult)
    → IsReady p
    → IsSoundStream p.next_stream_id s
    → LeavesOpen (kept p) (after_body p s result)
unfolding after_body
after_body-LeavesOpen p s result ready sound =
    let (h, l, live) = ready in
    let P = LeavesOpen (kept p) in
    split_if P (not s.local_end_stream_sent)
      (λ _. unchanged_open _ (store p s) (store-IsReady p s ready sound))
      (λ _.
        split_if P s.remote_end_stream_received
          (λ _. record {
            ready = (erase-IsSoundMap p.next_stream_id s.stream_id p.streams h, l, live);
            same_kept = refl;
          })
          (λ _. unchanged_open _ (store p _) (store-IsReady p _ ready sound)))

pub emit_pending_request_body-Stays :
    (p : Http2Protocol) (s : Stream) (result : StepResult)
    → IsReady p
    → IsSoundStream p.next_stream_id s
    → Stays (kept p) (emit_pending_request_body p s result)
unfolding emit_pending_request_body
emit_pending_request_body-Stays p s result (h, (low, high), live) (within, below, status) =
    let (frames, conn, s', runs, e) =
      emit_body-EmitsBody (remaining_body_size s) p.max_frame_size p.connection_out_flow s
        (omega arith) within (omega arith) in
    let p' : Http2Protocol = record p { connection_out_flow = conn } in
    let sound : IsSoundStream p.next_stream_id s' =
      (rw e.same_request e.within_body, rw e.same_id below, rw e.same_response status) in
    split_if (Stays (kept p)) (s.local_end_stream_sent || is_closed s.stream_state)
      (λ _. Stays-some (kept p) _ (unchanged_open result p (h, (low, high), live)))
      (λ _.
        rw runs
          (Stays-some (kept p) _ (after_body-LeavesOpen p' s' _ (h, (low, high), live) sound)))

pub emit_for-Stays :
    (p : Http2Protocol) (id : ℕ) (result : StepResult)
    → IsReady p
    → Stays (kept p) (emit_for p id result)
unfolding emit_for
emit_for-Stays p id result ready = elim (Option-cases (lookup ◌==◌ id p.streams)) [
  | inl e ↦ rw (e, emit_for) (Stays-some (kept p) (result, p) (unchanged_open result p ready))
  | inr (s, e) ↦
      let (same, sound) = lookup-IsSoundEntry p.next_stream_id id s p.streams ready.0 e in
      rw (e, emit_for) (emit_pending_request_body-Stays p s result ready sound)
]

pub emit_each-Stays :
    (ids : List ℕ) (result : StepResult) (codec : Kept) (p : Http2Protocol)
    → IsReady p
    → kept p ≡ codec
    → Stays codec (emit_each ids result p)
unfolding emit_each
emit_each-Stays [] result codec p ready same =
    Stays-some codec (result, p) (record { ready = ready; same_kept = same })
emit_each-Stays (id ∷ ids) result codec p ready same =
    Stays-after codec (emit_for p id result) _
      (Stays-same (kept p) codec (emit_for p id result) same (emit_for-Stays p id result ready))
      (λ step h. emit_each-Stays ids step.0 codec step.1 h.ready h.same_kept)

emit_iterating-Stays :
    (ids : List ℕ) (result : StepResult) (codec : Kept) (p : Http2Protocol)
    → IsReady p
    → kept p ≡ codec
    → Stays codec (emit_iterating ids result p)
unfolding emit_iterating
emit_iterating-Stays [] result codec p ready same =
    Stays-some codec (result, p) (record { ready = ready; same_kept = same })
emit_iterating-Stays (id ∷ ids) result codec p ready same =
    Stays-after codec (emit_for p id result) _
      (Stays-same (kept p) codec (emit_for p id result) same (emit_for-Stays p id result ready))
      (λ step h.
        split_if (Stays codec) (has_stream step.1 id)
          (λ _. emit_iterating-Stays ids step.0 codec step.1 h.ready h.same_kept)
          (λ _. Stays-some codec _ (record { ready = h.ready; same_kept = h.same_kept })))

-- The settings leave an open connection.
pub record Sets (codec : Kept) (r : ErrorCode × Http2Protocol) : Type 0 where
  pub ready : IsReady (r.1)
  pub same_kept : kept (r.1) ≡ codec

apply_initial_window_size-Sets :
    (p : Http2Protocol) (value : ℕ) → IsReady p → Sets (kept p) (apply_initial_window_size p value)
unfolding apply_initial_window_size
apply_initial_window_size-Sets p value (h, l, live) =
    split_if (Sets (kept p)) (ltb maximum_window_size value)
      (λ _. record { ready = (h, l, live); same_kept = refl })
      (λ _. record {
        ready = (shift_windows-IsSoundMap p.next_stream_id _ p.streams h, l, live);
        same_kept = refl;
      })

apply_setting-Sets :
    (p : Http2Protocol) (id value : ℕ) → IsReady p → Sets (kept p) (apply_setting p id value)
unfolding apply_setting
apply_setting-Sets p id value ready =
    let P = Sets (kept p) in
    let (h, l, live) = ready in
    split_if P (id == max_concurrent_streams_parameter)
      (λ _. record { ready = ready; same_kept = refl })
      (λ _.
        split_if P (id == header_table_size) (λ _. record { ready = ready; same_kept = refl })
          (λ _.
            split_if P (id == enable_push_parameter)
              (λ _.
                split_if P (not (value == 0)) (λ _. record { ready = ready; same_kept = refl })
                  (λ _. record { ready = ready; same_kept = refl }))
              (λ _.
                split_if P (id == max_frame_size_parameter)
                  (λ _.
                    split_if P
                      (ltb value minimum_max_frame_size || ltb maximum_max_frame_size value)
                      (λ _. record { ready = ready; same_kept = refl })
                      (λ e. record {
                        ready = (h, (ground arith, ground arith), live);
                        same_kept = refl;
                      }))
                  (λ _.
                    split_if P (id == initial_window_size_parameter)
                      (λ _. apply_initial_window_size-Sets p value ready)
                      (λ _.
                        split_if P (id == max_header_list_size_parameter)
                          (λ _. record { ready = ready; same_kept = refl })
                          (λ _. record { ready = ready; same_kept = refl }))))))

pub apply_settings-Sets :
    (settings : List (ℕ × ℕ)) (codec : Kept) (p : Http2Protocol)
    → IsReady p
    → kept p ≡ codec
    → Sets codec (apply_settings p settings)
unfolding apply_settings
apply_settings-Sets [] codec p ready same = record { ready = ready; same_kept = same }
apply_settings-Sets ((id, value) ∷ settings) codec p ready same =
    let one = apply_setting-Sets p id value ready in
    split_if (Sets codec) ((apply_setting p id value).0 == no_error)
      (λ _. apply_settings-Sets settings codec _ one.ready (one.same_kept ∙ same))
      (λ _. record { ready = one.ready; same_kept = one.same_kept ∙ same })

process_settings-Good :
    (p : Http2Protocol) (f : SettingFrame) → IsReady p → Good (kept p) (process_settings p f)
unfolding process_settings apply_peer_settings
process_settings-Good p f ready =
    let codec = kept p in
    let set =
      apply_settings-Sets f.settings codec (record p { got_peer_settings = true }) ready refl in
    let (code, p') = apply_settings (record p { got_peer_settings = true }) f.settings in
    let failing = fail_connection-Leaves p' code (codes "invalid peer settings") set.ready in
    split_if (Good codec) (not (code == no_error))
      (λ _.
        Good-some codec _
          (record { sound = failing.sound; same_kept = failing.same_kept ∙ set.same_kept }))
      (λ _.
        Good-after codec _ _
          (Stays-Good codec _
            (emit_iterating-Stays (ids_of p'.streams) _ codec p' set.ready set.same_kept))
          (λ step h. Good-some codec _ (record { sound = h.sound; same_kept = h.same_kept })))

pub process_setting_frame-Good :
    (p : Http2Protocol) (frame : RawFrame)
    → IsReady p
    → Good (kept p) (process_setting_frame p frame)
unfolding process_setting_frame
process_setting_frame-Good p frame ready =
    let codec = kept p in
    let P = Good codec in
    let (f, runs) = SettingFrame-of_raw frame in
    split_if P (not (frame.header.stream_id == 0))
      (λ _. Good-some codec _ (fail_connection-Leaves p _ _ ready))
      (λ _.
        split_if P (not (frame.header.payload_length % 6 == 0))
          (λ _. Good-some codec _ (fail_connection-Leaves p _ _ ready))
          (λ _.
            split_if P (has_any_flag frame.header flag_ack)
              (λ _.
                split_if P (not (frame.header.payload_length == 0))
                  (λ _. Good-some codec _ (fail_connection-Leaves p _ _ ready))
                  (λ _. Good-some codec _ (unchanged _ p ready)))
              (λ _. Good-then codec _ runs (process_settings-Good p f ready))))
