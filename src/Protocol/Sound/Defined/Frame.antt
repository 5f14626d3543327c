-- ===== src/Protocol/Sound/Defined/Frame.antt =====
-- processSettingFrame (src/http2_protocol.cpp) stays clear of undefined behaviour: no difference of
-- window sizes overflows, and the loop over the streams erases none.
use chttp.Prelude.{
  ℕ, ◌==◌, ◌%◌, ltb, ◌≤◌, ◌≡◌, ◌∙◌, refl, List, [], ◌∷◌, none, some, false, true, not, ◌&&◌, ◌||◌,
  inl, inr, Bool-cases, Option-cases, All, subst, arith,
}
use chttp.Prelude.Int.{ℤ}
use chttp.Prelude.Map.{Map, lookup}
use chttp.Flow.OutFlow
use chttp.Frame.Header.{has_any_flag, flag_ack}
use chttp.Frame.Raw.{RawFrame}
use chttp.Frame.SettingFrame.{SettingFrame}
use chttp.Protocol.Constants.{
  ErrorCode, no_error, header_table_size, enable_push_parameter, max_concurrent_streams_parameter,
  initial_window_size_parameter, max_frame_size_parameter, max_header_list_size_parameter,
  maximum_window_size, minimum_max_frame_size, maximum_max_frame_size,
}
use chttp.Protocol.State.{
  Http2Protocol, Stream, StepResult, no_result, append_event, settings_ack_received,
}
use chttp.Protocol.Settings.{
  shift_windows, apply_initial_window_size, apply_setting, apply_settings, apply_peer_settings,
}
use chttp.Protocol.Settings.Windows.{difference_fits}
use chttp.Protocol.Fail.{fail_stream, fail_each, fail_all_streams, fail_connection, ids_of}
use chttp.Protocol.Receive.Data.{Outcome}
use chttp.Protocol.Receive.Settings.{process_settings, process_setting_frame}
use chttp.Protocol.Sound.{IsReady}
use chttp.Protocol.Sound.Frames.{SettingFrame-of_raw}
use chttp.Protocol.Sound.Outcome.{kept, Leaves, Good-runs, split_if}
use chttp.Protocol.Sound.Settings.{apply_settings-Sets, process_setting_frame-Good}
use chttp.Protocol.Sound.Defined.{IsSettled, emit_iterating_defined, ids-Found, Found-has_stream}

-- What the settings keep: the window size is legal, the streams are settled.
record Quiet (p : Http2Protocol) : Type 0 where
  legal : p.initial_window_size ≤ maximum_window_size
  settled : All IsSettled p.streams
  defined : p.undefined_behavior ≡ false

shift_windows-IsSettled :
    (delta : ℤ) (m : Map ℕ Stream) → All IsSettled m → All IsSettled (shift_windows delta m).0
unfolding shift_windows
shift_windows-IsSettled delta [] all = tt
shift_windows-IsSettled delta ((id, s) ∷ m) (one, all) =
    elim (Bool-cases (OutFlow.add s.outflow delta).1) [
      | inl t ↦ rw t (one, shift_windows-IsSettled delta m all)
      | inr f ↦ rw f (one, all)
    ]

apply_initial_window_size-Quiet :
    (p : Http2Protocol) (value : ℕ) → Quiet p → Quiet (apply_initial_window_size p value).1
unfolding apply_initial_window_size
apply_initial_window_size-Quiet p value h = elim (Bool-cases (ltb maximum_window_size value)) [
  | inl t ↦ rw t h
  | inr f ↦
      let legal : value ≤ maximum_window_size = ground arith in
      rw f (record {
        legal = legal;
        settled = shift_windows-IsSettled _ p.streams h.settled;
        defined =
            rw (difference_fits value p.initial_window_size legal h.legal, h.defined)
              (ground arith);
      })
]

apply_setting-Quiet :
    (p : Http2Protocol) (id value : ℕ) → Quiet p → Quiet (apply_setting p id value).1
unfolding apply_setting
apply_setting-Quiet p id value h =
    let P = λ (r : ErrorCode × Http2Protocol). Quiet (r.1) in
    let kept_quiet : (q : Http2Protocol)
        → q.initial_window_size ≡ p.initial_window_size
        → q.streams ≡ p.streams
        → q.undefined_behavior ≡ p.undefined_behavior
        → Quiet q =
      λ q a b c. record {
        legal = rw a h.legal;
        settled = rw b h.settled;
        defined = c ∙ h.defined;
      } in
    split_if P (id == max_concurrent_streams_parameter) (λ _. kept_quiet _ refl refl refl)
      (λ _.
        split_if P (id == header_table_size) (λ _. kept_quiet _ refl refl refl)
          (λ _.
            split_if P (id == enable_push_parameter)
              (λ _. split_if P (not (value == 0)) (λ _. h) (λ _. kept_quiet _ refl refl refl))
              (λ _.
                split_if P (id == max_frame_size_parameter)
                  (λ _.
                    split_if P
                      (ltb value minimum_max_frame_size || ltb maximum_max_frame_size value)
                      (λ _. h) (λ _. kept_quiet _ refl refl refl))
                  (λ _.
                    split_if P (id == initial_window_size_parameter)
                      (λ _. apply_initial_window_size-Quiet p value h)
                      (λ _.
                        split_if P (id == max_header_list_size_parameter)
                          (λ _. kept_quiet _ refl refl refl) (λ _. h))))))

apply_settings-Quiet :
    (settings : List (ℕ × ℕ)) (p : Http2Protocol) → Quiet p → Quiet (apply_settings p settings).1
unfolding apply_settings
apply_settings-Quiet [] p h = h
apply_settings-Quiet ((id, value) ∷ settings) p h =
    let one = apply_setting-Quiet p id value h in
    elim (Bool-cases ((apply_setting p id value).0 == no_error)) [
      | inl t ↦ rw t (apply_settings-Quiet settings (apply_setting p id value).1 one)
      | inr f ↦ rw f one
    ]

fail_stream_defined :
    (p : Http2Protocol) (id : ℕ) (code : ErrorCode)
    → (fail_stream p id code false).1.undefined_behavior ≡ p.undefined_behavior
unfolding fail_stream
fail_stream_defined p id code = elim (Option-cases (lookup ◌==◌ id p.streams)) [
  | inl e ↦ rw (e, fail_stream) refl
  | inr (s, e) ↦ rw (e, fail_stream) refl
]

fail_each_defined :
    (code : ErrorCode) (ids : List ℕ) (result : StepResult) (p : Http2Protocol)
    → (fail_each code ids result p).1.undefined_behavior ≡ p.undefined_behavior
unfolding fail_each
fail_each_defined code [] result p = refl
fail_each_defined code (id ∷ ids) result p =
    fail_each_defined code ids _ _ ∙ fail_stream_defined p id code

fail_connection_defined :
    (p : Http2Protocol) (code : ErrorCode) (debug_data : List ℕ)
    → (fail_connection p code debug_data).1.undefined_behavior ≡ p.undefined_behavior
unfolding fail_connection fail_all_streams
fail_connection_defined p code debug_data =
    elim (Bool-cases (not p.sent_goaway && not p.transport_closed)) [
      | inl t ↦ rw t (fail_each_defined code (ids_of p.streams) _ _)
      | inr f ↦ rw f (fail_each_defined code (ids_of p.streams) _ _)
    ]

-- The step of a handler, if there is one, is defined.
unfoldable Clear : Outcome → Type 0
Clear none = Unit
Clear (some step) = (step.1).undefined_behavior ≡ false

Clear-some :
    (step : StepResult × Http2Protocol) → (step.1).undefined_behavior ≡ false → Clear (some step)
unfolding Clear
Clear-some step h = h

process_settings-Clear :
    (p : Http2Protocol) (f : SettingFrame) → IsReady p → Quiet p → Clear (process_settings p f)
unfolding process_settings apply_peer_settings
process_settings-Clear p f ready quiet =
    let start : Http2Protocol = record p { got_peer_settings = true } in
    let set = apply_settings-Sets f.settings (kept p) start ready refl in
    let h =
      apply_settings-Quiet f.settings start
        (record { legal = quiet.legal; settled = quiet.settled; defined = quiet.defined }) in
    let (code, p') = apply_settings start f.settings in
    let (step, runs, same) =
      emit_iterating_defined (ids_of p'.streams) no_result p' set.ready h.settled
        (Found-has_stream p' (ids_of p'.streams) (ids-Found p'.streams)) in
    split_if Clear (not (code == no_error))
      (λ _. Clear-some _ (fail_connection_defined p' code _ ∙ h.defined))
      (λ _. rw runs (Clear-some _ (same ∙ h.defined)))

-- A SETTINGS frame is handled without an exception and without undefined behaviour, and leaves a
-- sound state, where the connection is open and its state sound, its window size is a legal one, at
-- most 2^31 - 1, and the peer has ended no stream whose request is not out.
pub process_setting_frame-IsDefined :
    (p : Http2Protocol) (frame : RawFrame)
    → IsReady p
    → p.initial_window_size ≤ maximum_window_size
    → All IsSettled p.streams
    → p.undefined_behavior ≡ false
    → (step : StepResult × Http2Protocol) × (process_setting_frame p frame ≡ some step)
      × ((step.1).undefined_behavior ≡ false)
      × Leaves (kept p) step
unfolding process_setting_frame Clear
process_setting_frame-IsDefined p frame ready legal settled defined =
    let quiet : Quiet p = record { legal = legal; settled = settled; defined = defined } in
    let failing = λ (code : ErrorCode) (why : List ℕ).
      Clear-some (fail_connection p code why) (fail_connection_defined p code why ∙ defined) in
    let (f, runs) = SettingFrame-of_raw frame in
    let clear : Clear (process_setting_frame p frame) =
      split_if Clear (not (frame.header.stream_id == 0)) (λ _. failing _ _)
        (λ _.
          split_if Clear (not (frame.header.payload_length % 6 == 0)) (λ _. failing _ _)
            (λ _.
              split_if Clear (has_any_flag frame.header flag_ack)
                (λ _.
                  split_if Clear (not (frame.header.payload_length == 0)) (λ _. failing _ _)
                    (λ _. Clear-some (append_event no_result settings_ack_received, p) defined))
                (λ _. rw runs (process_settings-Clear p f ready quiet)))) in
    let (step, returns, left) =
      Good-runs (kept p) (process_setting_frame p frame)
        (process_setting_frame-Good p frame ready) in
    (step, returns, subst Clear returns clear, left)
