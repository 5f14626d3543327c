-- ===== src/Frame/RstStreamFrame.antt =====
-- struct RstStreamFrame (include/chttp2/frame.hpp, src/frame.cpp).
use chttp.Prelude.{ℕ, List, ◌++◌, Option, some, ◌>>=◌}
use chttp.Bytes.{append_be, read_be}
use chttp.Frame.Header.{FrameHeader, encode, frame_rst_stream, header_for}
use chttp.Frame.Raw.{RawFrame}

pub record RstStreamFrame : Type 0 where
  pub header : FrameHeader
  pub error_code : ℕ

abbrev pub for_stream : ℕ → RstStreamFrame
for_stream id = record { header = header_for frame_rst_stream id; error_code = 0 }

unfoldable pub of_raw : RawFrame → Option RstStreamFrame
of_raw frame = do
  (code, _) ← read_be 4 0 frame.body
  some (record { header = frame.header; error_code = code })

unfoldable pub to_bytes : RstStreamFrame → List ℕ
to_bytes f = encode f.header ++ append_be 4 f.error_code
