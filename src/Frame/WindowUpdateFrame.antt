-- ===== src/Frame/WindowUpdateFrame.antt =====
-- struct WindowUpdateFrame (include/chttp2/frame.hpp, src/frame.cpp).
use chttp.Prelude.{ℕ, List, ◌++◌, Option, some, ◌>>=◌}
use chttp.Bytes.{append_be, read_be}
use chttp.Frame.Header.{FrameHeader, encode}
use chttp.Frame.Raw.{RawFrame}

pub record WindowUpdateFrame : Type 0 where
  pub header : FrameHeader
  pub window_size_increment : ℕ

unfoldable pub of_raw : RawFrame → Option WindowUpdateFrame
of_raw frame = do
  (increment, _) ← read_be 4 0 frame.body
  some (record { header = frame.header; window_size_increment = increment })

unfoldable pub to_bytes : WindowUpdateFrame → List ℕ
to_bytes f = encode f.header ++ append_be 4 f.window_size_increment
