-- ===== src/Frame/ContinuationFrame.antt =====
-- struct ContinuationFrame (include/chttp2/frame.hpp, src/frame.cpp).
use chttp.Prelude.{ℕ, List, [], ◌++◌}
use chttp.Frame.Header.{FrameHeader, encode, frame_continuation, header_for}
use chttp.Frame.Raw.{RawFrame}

pub record ContinuationFrame : Type 0 where
  pub header : FrameHeader
  pub body : List ℕ

abbrev pub for_stream : ℕ → ContinuationFrame
for_stream id = record { header = header_for frame_continuation id; body = [] }

unfoldable pub of_raw : RawFrame → ContinuationFrame
of_raw frame = record { header = frame.header; body = frame.body }

unfoldable pub to_bytes : ContinuationFrame → List ℕ
to_bytes f = encode f.header ++ f.body
