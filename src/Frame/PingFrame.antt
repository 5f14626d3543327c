-- ===== src/Frame/PingFrame.antt =====
-- struct PingFrame (include/chttp2/frame.hpp, src/frame.cpp).
use chttp.Prelude.{ℕ, List, ◌++◌}
use chttp.Frame.Header.{FrameHeader, encode}
use chttp.Frame.Raw.{RawFrame}

pub record PingFrame : Type 0 where
  pub header : FrameHeader
  pub body : List ℕ

unfoldable pub of_raw : RawFrame → PingFrame
of_raw frame = record { header = frame.header; body = frame.body }

unfoldable pub to_bytes : PingFrame → List ℕ
to_bytes f = encode f.header ++ f.body
