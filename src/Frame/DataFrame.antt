-- ===== src/Frame/DataFrame.antt =====
-- struct DataFrame (include/chttp2/frame.hpp, src/frame.cpp).
use chttp.Prelude.{ℕ, List, [], ◌++◌, Option, some, ◌>>=◌}
use chttp.Frame.Header.{FrameHeader, encode, frame_data, header_for}
use chttp.Frame.Raw.{RawFrame, take_pad_length, split_padding, pad_length_bytes, padding_bytes}

pub record DataFrame : Type 0 where
  pub header : FrameHeader
  pub pad_length : ℕ
  pub body : List ℕ
  pub padding : List ℕ

abbrev pub for_stream : ℕ → DataFrame
for_stream id = record {
  header = header_for frame_data id;
  pad_length = 0;
  body = [];
  padding = [];
}

unfoldable pub of_raw : RawFrame → Option DataFrame
of_raw frame = do
  (pad, payload) ← take_pad_length frame.header frame.body
  (body, padding) ← split_padding pad payload
  some (record { header = frame.header; pad_length = pad; body = body; padding = padding })

unfoldable pub payload_bytes : DataFrame → List ℕ
payload_bytes f =
    pad_length_bytes f.header f.pad_length ++ (f.body ++ padding_bytes f.header f.padding)

unfoldable pub to_bytes : DataFrame → List ℕ
unfolding payload_bytes
to_bytes f = encode f.header ++ payload_bytes f
