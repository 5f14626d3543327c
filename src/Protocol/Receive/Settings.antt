-- ===== src/Protocol/Receive/Settings.antt =====
-- processSettingFrame, processWindowUpdateFrame and the loops in which they send what the windows
-- now allow (src/http2_protocol.cpp). The loop of processSettingFrame iterates over the map itself:
-- where it erases the stream that it stands at, its iterator is invalid and the behaviour undefined.
-- The loop of processWindowUpdateFrame collects the streams first.
use chttp.Prelude.{
  ℕ, ◌%◌, ◌^◌, ◌==◌, leb, List, [], ◌∷◌, none, some, Bool, true, false, not, if◌then◌else◌, codes,
  ◌>>=◌,
}
use chttp.Prelude.Int.{pos}
use chttp.Prelude.Map.{lookup}
use chttp.Flow.OutFlow
use chttp.Flow.OutFlow.{OutFlow}
use chttp.Frame.Header.{has_any_flag, set_flag, flag_ack}
use chttp.Frame.Raw.{RawFrame}
use chttp.Frame.SettingFrame
use chttp.Frame.SettingFrame.{SettingFrame, for_connection}
use chttp.Frame.WindowUpdateFrame
use chttp.Frame.WindowUpdateFrame.{WindowUpdateFrame}
use chttp.Protocol.Constants.{no_error, protocol_error, frame_size_error, flow_control_error}
use chttp.Protocol.State.{
  Http2Protocol, Stream, StepResult, no_result, append_outbound, append_event, settings_received,
  settings_ack_received, window_update_received,
}
use chttp.Protocol.Settings.{apply_peer_settings}
use chttp.Protocol.Fail.{fail_stream, fail_connection, ids_of}
use chttp.Protocol.Emit.{emit_pending_request_body}
use chttp.Protocol.Response.{store}
use chttp.Protocol.Receive.Data.{Outcome}

unfoldable pub emit_for : Http2Protocol → ℕ → StepResult → Outcome
emit_for p id result = elim (lookup ◌==◌ id p.streams) [
  | none ↦ some (result, p)
  | some s ↦ emit_pending_request_body p s result
]

unfoldable pub emit_each : List ℕ → StepResult → Http2Protocol → Outcome
unfolding emit_for
emit_each [] result p = some (result, p)
emit_each (id ∷ ids) result p = do (result', p') ← emit_for p id result; emit_each ids result' p'

unfoldable pub has_stream : Http2Protocol → ℕ → Bool
has_stream p id = elim (lookup ◌==◌ id p.streams) [ none ↦ false | some s ↦ true ]

-- The loop over the map itself. It stops where it has erased the stream that it stands at.
unfoldable pub emit_iterating : List ℕ → StepResult → Http2Protocol → Outcome
unfolding emit_for has_stream
emit_iterating [] result p = some (result, p)
emit_iterating (id ∷ ids) result p = do
  (result', p') ← emit_for p id result
  let rest = emit_iterating ids result' p'
  (if has_stream p' id then rest else some (result', record p' { undefined_behavior = true }))

abbrev pub settings_ack : SettingFrame
settings_ack = record for_connection { header = set_flag (for_connection.header) flag_ack }

-- The settings of a frame that is not an ACK.
unfoldable pub process_settings : Http2Protocol → SettingFrame → Outcome
process_settings p f =
    let (code, p') = apply_peer_settings (record p { got_peer_settings = true }) f in
    if not (code == no_error)
    then some (fail_connection p' code (codes "invalid peer settings"))
    else (do
      (result, p'') ← emit_iterating (ids_of p'.streams) no_result p'
      some (
        append_outbound (append_event result settings_received)
            (SettingFrame.to_bytes settings_ack),
        p'',
      ))

unfoldable pub process_setting_frame : Http2Protocol → RawFrame → Outcome
process_setting_frame p frame =
    if not (frame.header.stream_id == 0)
    then some (fail_connection p protocol_error (codes "SETTINGS with non-zero stream id"))
    else if not (frame.header.payload_length % 6 == 0)
    then some (fail_connection p frame_size_error (codes "invalid SETTINGS size"))
    else if has_any_flag frame.header flag_ack
    then if not (frame.header.payload_length == 0)
      then some (fail_connection p frame_size_error (codes "SETTINGS ack must be empty"))
      else some (append_event no_result settings_ack_received, p)
    else (do f ← SettingFrame.of_raw frame; process_settings p f)

unfoldable pub update_connection : Http2Protocol → ℕ → StepResult → Outcome
update_connection p increment result =
    let (flow, fits) = OutFlow.add p.connection_out_flow (pos increment) in
    if not fits
    then some (fail_connection p flow_control_error (codes "connection window overflow"))
    else emit_each (ids_of p.streams) result (record p { connection_out_flow = flow })

unfoldable pub update_stream : Http2Protocol → Stream → ℕ → StepResult → Outcome
update_stream p s increment result =
    let (flow, fits) = OutFlow.add s.outflow (pos increment) in
    let s' : Stream = record s { outflow = flow } in
    if not fits
    then some (fail_stream p s.stream_id flow_control_error true)
    else emit_pending_request_body (store p s') s' result

unfoldable pub update_window : Http2Protocol → ℕ → ℕ → StepResult → Outcome
update_window p id increment result =
    if id == 0 then update_connection p increment result else elim (lookup ◌==◌ id p.streams) [
      | none ↦
          if leb p.next_stream_id id
          then some (fail_connection p protocol_error (codes "WINDOW_UPDATE for idle stream"))
          else some (result, p)
      | some s ↦ update_stream p s increment result
    ]

unfoldable pub process_window_update : Http2Protocol → WindowUpdateFrame → Outcome
unfolding update_window
process_window_update p f =
    let id = f.header.stream_id in
    let increment = f.window_size_increment % 2 ^ 31 in
    if increment == 0
    then if id == 0
      then some (fail_connection p protocol_error (codes "zero connection window update"))
      else some (fail_stream p id protocol_error true)
    else update_window p id increment (append_event no_result (window_update_received id increment))

unfoldable pub process_window_update_frame : Http2Protocol → RawFrame → Outcome
process_window_update_frame p frame =
    if not (frame.header.payload_length == 4)
    then some (fail_connection p frame_size_error (codes "invalid WINDOW_UPDATE size"))
    else (do f ← WindowUpdateFrame.of_raw frame; process_window_update p f)
