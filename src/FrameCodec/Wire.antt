-- ===== src/FrameCodec/Wire.antt =====
-- A frame of any type, from `toBytes` (src/frame.cpp) through the codec (src/frame_codec.cpp) and
-- the constructor that Http2Protocol::receiveFrame's dispatch leads to.
use chttp.Prelude.{
  ℕ, ◌<◌, ◌^◌, ◌≡◌, ◌==◌, List, ◌++◌, Option, some, none, if◌then◌else◌, length, All, append_assoc,
  ◌>>=◌, arith, refl,
}
use mathlib.Core.Option
use chttp.Bytes.{append_be}
use chttp.Frame.Header.{
  FrameHeader, encode, frame_data, frame_headers, frame_rst_stream, frame_settings,
  frame_push_promise, frame_ping, frame_goaway, frame_window_update, frame_continuation,
}
use chttp.Frame.HeaderRoundTrip.{FitsWire}
use chttp.Frame.Raw.{RawFrame}
use chttp.Frame.DataFrame
use chttp.Frame.DataFrame.{DataFrame}
use chttp.Frame.HeadersFrame
use chttp.Frame.HeadersFrame.{HeadersFrame}
use chttp.Frame.RstStreamFrame
use chttp.Frame.RstStreamFrame.{RstStreamFrame}
use chttp.Frame.SettingFrame
use chttp.Frame.SettingFrame.{SettingFrame}
use chttp.Frame.PushPromiseFrame
use chttp.Frame.PushPromiseFrame.{PushPromiseFrame}
use chttp.Frame.PingFrame
use chttp.Frame.PingFrame.{PingFrame}
use chttp.Frame.GoAwayFrame
use chttp.Frame.GoAwayFrame.{GoAwayFrame}
use chttp.Frame.WindowUpdateFrame
use chttp.Frame.WindowUpdateFrame.{WindowUpdateFrame}
use chttp.Frame.ContinuationFrame
use chttp.Frame.ContinuationFrame.{ContinuationFrame}
use chttp.Frame.RoundTrip.{
  IsPadding, IsPriority, FitsSetting, data_of_raw, headers_of_raw, rst_stream_of_raw,
  settings_of_raw, push_promise_of_raw, goaway_of_raw, window_update_of_raw,
}
use chttp.FrameCodec.{FrameCodec, try_pop}
use chttp.FrameCodec.Pop.{try_pop-encode}

pub data Frame : Type 0 where
  data_frame : DataFrame → Frame
  headers : HeadersFrame → Frame
  rst_stream : RstStreamFrame → Frame
  settings : SettingFrame → Frame
  push_promise : PushPromiseFrame → Frame
  ping : PingFrame → Frame
  goaway : GoAwayFrame → Frame
  window_update : WindowUpdateFrame → Frame
  continuation : ContinuationFrame → Frame

abbrev pub header : Frame → FrameHeader
header (data_frame f) = f.header
header (headers f) = f.header
header (rst_stream f) = f.header
header (settings f) = f.header
header (push_promise f) = f.header
header (ping f) = f.header
header (goaway f) = f.header
header (window_update f) = f.header
header (continuation f) = f.header

pub to_bytes : Frame → List ℕ
to_bytes (data_frame f) = DataFrame.to_bytes f
to_bytes (headers f) = HeadersFrame.to_bytes f
to_bytes (rst_stream f) = RstStreamFrame.to_bytes f
to_bytes (settings f) = SettingFrame.to_bytes f
to_bytes (push_promise f) = PushPromiseFrame.to_bytes f
to_bytes (ping f) = PingFrame.to_bytes f
to_bytes (goaway f) = GoAwayFrame.to_bytes f
to_bytes (window_update f) = WindowUpdateFrame.to_bytes f
to_bytes (continuation f) = ContinuationFrame.to_bytes f

-- The switch over the type of a received frame; `none` is an unknown type or PRIORITY, which the
-- protocol does not parse, or an exception of the constructor.
pub of_raw : RawFrame → Option Frame
of_raw raw =
    if raw.header.type == frame_data
    then Option.map data_frame (DataFrame.of_raw raw)
    else if raw.header.type == frame_headers
    then Option.map headers (HeadersFrame.of_raw raw)
    else if raw.header.type == frame_rst_stream
    then Option.map rst_stream (RstStreamFrame.of_raw raw)
    else if raw.header.type == frame_settings
    then Option.map settings (SettingFrame.of_raw raw)
    else if raw.header.type == frame_push_promise
    then Option.map push_promise (PushPromiseFrame.of_raw raw)
    else if raw.header.type == frame_ping
    then some (ping (PingFrame.of_raw raw))
    else if raw.header.type == frame_goaway
    then Option.map goaway (GoAwayFrame.of_raw raw)
    else if raw.header.type == frame_window_update
    then Option.map window_update (WindowUpdateFrame.of_raw raw)
    else if raw.header.type == frame_continuation
    then some (continuation (ContinuationFrame.of_raw raw))
    else none

-- What `to_bytes` writes after the header.
unfoldable pub payload_bytes : Frame → List ℕ
payload_bytes (data_frame f) = DataFrame.payload_bytes f
payload_bytes (headers f) = HeadersFrame.payload_bytes f
payload_bytes (rst_stream f) = append_be 4 f.error_code
payload_bytes (settings f) = SettingFrame.settings_bytes f.settings
payload_bytes (push_promise f) = PushPromiseFrame.payload_bytes f
payload_bytes (ping f) = f.body
payload_bytes (goaway f) = append_be 4 f.last_stream_id ++ (append_be 4 f.error_code ++ f.body)
payload_bytes (window_update f) = append_be 4 f.window_size_increment
payload_bytes (continuation f) = f.body

-- The fields fit their C++ types, the header has the frame's type, and the optional parts are there
-- exactly under their flags.
abbrev pub IsFrame : Frame → Type 0
IsFrame (data_frame f) = (f.header.type ≡ frame_data) × IsPadding f.header f.pad_length f.padding
IsFrame (headers f) =
    (f.header.type ≡ frame_headers)
    × IsPadding f.header f.pad_length f.padding
    × IsPriority f.header f.stream_dependency f.weight
IsFrame (rst_stream f) = (f.header.type ≡ frame_rst_stream) × (f.error_code < 2 ^ 32)
IsFrame (settings f) = (f.header.type ≡ frame_settings) × All FitsSetting f.settings
IsFrame (push_promise f) =
    (f.header.type ≡ frame_push_promise)
    × IsPadding f.header f.pad_length f.padding
    × (f.promised_stream_id < 2 ^ 31)
IsFrame (ping f) = f.header.type ≡ frame_ping
IsFrame (goaway f) =
    (f.header.type ≡ frame_goaway) × (f.last_stream_id < 2 ^ 31) × (f.error_code < 2 ^ 32)
IsFrame (window_update f) =
    (f.header.type ≡ frame_window_update) × (f.window_size_increment < 2 ^ 32)
IsFrame (continuation f) = f.header.type ≡ frame_continuation

to_bytes-payload : (f : Frame) → to_bytes f ≡ encode (header f) ++ payload_bytes f
unfolding to_bytes payload_bytes DataFrame.to_bytes HeadersFrame.to_bytes RstStreamFrame.to_bytes
    SettingFrame.to_bytes PushPromiseFrame.to_bytes PingFrame.to_bytes GoAwayFrame.to_bytes
    WindowUpdateFrame.to_bytes ContinuationFrame.to_bytes
to_bytes-payload (data_frame f) = refl
to_bytes-payload _ = refl

of_raw-payload :
    (f : Frame) → IsFrame f → of_raw (record { header = header f; body = payload_bytes f }) ≡ some f
unfolding of_raw payload_bytes PingFrame.of_raw ContinuationFrame.of_raw
of_raw-payload (data_frame f) (t, w) = ground (arith, data_of_raw f w)
of_raw-payload (headers f) (t, w, p) = ground (arith, headers_of_raw f w p)
of_raw-payload (rst_stream f) (t, h) = ground (arith, rst_stream_of_raw f h)
of_raw-payload (settings f) (t, w) = ground (arith, settings_of_raw f w)
of_raw-payload (push_promise f) (t, w, h) = ground (arith, push_promise_of_raw f w h)
of_raw-payload (ping f) t = ground arith
of_raw-payload (goaway f) (t, h, k) = ground (arith, goaway_of_raw f h k)
of_raw-payload (window_update f) (t, h) = ground (arith, window_update_of_raw f h)
of_raw-payload (continuation f) t = ground arith

-- Pop one frame and parse it.
pub receive : FrameCodec → Option (Frame × FrameCodec)
receive bytes = do (raw, rest) ← try_pop bytes; f ← of_raw raw; some (f, rest)

-- A well-formed frame of any type, whose header fits the wire and holds the payload's length, is
-- received as it was sent, and the bytes after it are left.
pub receive-to_bytes :
    (f : Frame) (rest : List ℕ)
    → IsFrame f
    → FitsWire (header f)
    → length (payload_bytes f) ≡ (header f).payload_length
    → receive (to_bytes f ++ rest) ≡ some (f, rest)
unfolding receive
receive-to_bytes f rest w h e =
    rw (to_bytes-payload f, append_assoc)
      (rw (try_pop-encode (header f) (payload_bytes f) rest h e) (rw (of_raw-payload f w)))
