-- ===== src/Examples/Settings.antt =====
-- SETTINGS frames on a concrete connection (src/http2_protocol.cpp) with one request whose body waits.
use chttp.Prelude.{[], ◌∷◌, ◌≡◌, Option, none, some, Bool, true, false, inl, refl, arith}
use chttp.Prelude.Int.{pos, ◌-ℤ◌}
use chttp.Prelude.Map.{lookup, erase}
use chttp.Flow.OutFlow
use chttp.Frame.Header.{frame_settings, set_flag}
use chttp.Frame.Raw.{RawFrame}
use chttp.Protocol.State.{Http2Protocol, StepResult, no_result}
use chttp.Protocol.Emit.{
  chunk_size, spend, emit_chunk, emit_body, after_body, is_closed, emit_pending_request_body,
}
use chttp.Protocol.Fail.{ids_of}
use chttp.Protocol.Receive.Settings.{emit_for, has_stream, emit_iterating, process_setting_frame}
use chttp.Protocol.Sound.Outcome.{kept, Leaves}
use chttp.Protocol.Sound.Defined.Frame.{process_setting_frame-IsDefined}
use chttp.Examples.Protocol.{waiting, connected}
use chttp.Examples.Receive.{connected-IsSound}

-- INITIAL_WINDOW_SIZE is 65635, a hundred bytes more.
abbrev more_window : RawFrame
more_window = record {
  header = record { payload_length = 6; type = frame_settings; flags = 0; stream_id = 0 };
  body = 0 ∷ 4 ∷ 0 ∷ 1 ∷ 0 ∷ 99 ∷ [];
}

process_setting_frame-IsDefined_example :
    (step : StepResult × Http2Protocol) × (process_setting_frame connected more_window ≡ some step)
    × ((step.1).undefined_behavior ≡ false)
    × Leaves (kept connected) step
process_setting_frame-IsDefined_example =
    process_setting_frame-IsDefined connected more_window
      (connected-IsSound.0, connected-IsSound.1, refl) (omega arith) (inl refl, (inl refl, tt)) refl

-- The peer has answered the request before its body is out, and a setting has opened the window: the
-- loop sends the rest of the body and so erases the stream that it stands at.
abbrev answered_early : Http2Protocol
answered_early = record connected {
  streams =
      (
        1,
        record waiting { remote_end_stream_received = true; outflow = record { window = pos 100 } },
      )
      ∷ [];
}

abbrev is_undefined : Option (StepResult × Http2Protocol) → Bool
is_undefined none = false
is_undefined (some (result, p)) = p.undefined_behavior

answered_early-is_undefined :
    is_undefined (emit_iterating (ids_of answered_early.streams) no_result answered_early) ≡ true
unfolding emit_iterating emit_for has_stream lookup erase emit_pending_request_body emit_body
    chunk_size OutFlow.available OutFlow.take spend emit_chunk after_body is_closed ◌-ℤ◌ set_flag
answered_early-is_undefined = refl
