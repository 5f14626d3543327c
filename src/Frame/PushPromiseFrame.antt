-- ===== src/Frame/PushPromiseFrame.antt =====
-- struct PushPromiseFrame (include/chttp2/frame.hpp, src/frame.cpp).
use chttp.Prelude.{ℕ, ◌%◌, ◌^◌, List, ◌++◌, Option, some, ◌>>=◌}
use chttp.Bytes.{append_be, read_be}
use chttp.Frame.Header.{FrameHeader, encode}
use chttp.Frame.Raw.{RawFrame, take_pad_length, split_padding, pad_length_bytes, padding_bytes}

pub record PushPromiseFrame : Type 0 where
  pub header : FrameHeader
  pub pad_length : ℕ
  pub promised_stream_id : ℕ
  pub body : List ℕ
  pub padding : List ℕ

unfoldable pub of_raw : RawFrame → Option PushPromiseFrame
of_raw frame = do
  (pad, payload) ← take_pad_length frame.header frame.body
  (promised, payload) ← read_be 4 0 payload
  (body, padding) ← split_padding pad payload
  some (record {
    header = frame.header;
    pad_length = pad;
    promised_stream_id = promised % 2 ^ 31;
    body = body;
    padding = padding;
  })

unfoldable pub payload_bytes : PushPromiseFrame → List ℕ
payload_bytes f =
    pad_length_bytes f.header f.pad_length
    ++ (append_be 4 f.promised_stream_id ++ (f.body ++ padding_bytes f.header f.padding))

unfoldable pub to_bytes : PushPromiseFrame → List ℕ
unfolding payload_bytes
to_bytes f = encode f.header ++ payload_bytes f
