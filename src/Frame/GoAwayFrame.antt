-- ===== src/Frame/GoAwayFrame.antt =====
-- struct GoAwayFrame (include/chttp2/frame.hpp, src/frame.cpp).
use chttp.Prelude.{ℕ, ◌%◌, ◌^◌, List, ◌++◌, Option, some, ◌>>=◌}
use chttp.Bytes.{append_be, read_be}
use chttp.Frame.Header.{FrameHeader, encode}
use chttp.Frame.Raw.{RawFrame}

pub record GoAwayFrame : Type 0 where
  pub header : FrameHeader
  pub last_stream_id : ℕ
  pub error_code : ℕ
  pub body : List ℕ

unfoldable pub of_raw : RawFrame → Option GoAwayFrame
of_raw frame = do
  (last, payload) ← read_be 4 0 frame.body
  (code, payload) ← read_be 4 0 payload
  some (record {
    header = frame.header;
    last_stream_id = last % 2 ^ 31;
    error_code = code;
    body = payload;
  })

unfoldable pub to_bytes : GoAwayFrame → List ℕ
to_bytes f =
    encode f.header ++ (append_be 4 f.last_stream_id ++ (append_be 4 f.error_code ++ f.body))
