-- ===== src/Frame/HeadersFrame.antt =====
-- struct HeadersFrame (include/chttp2/frame.hpp, src/frame.cpp).
use chttp.Prelude.{ℕ, List, [], ◌++◌, Option, some, if◌then◌else◌, ◌>>=◌}
use chttp.Bytes.{append_be, read_be}
use chttp.Frame.Header.{FrameHeader, encode, frame_headers, header_for, has_any_flag, flag_priority}
use chttp.Frame.Raw.{RawFrame, take_pad_length, split_padding, pad_length_bytes, padding_bytes}

pub record HeadersFrame : Type 0 where
  pub header : FrameHeader
  pub pad_length : ℕ
  pub stream_dependency : ℕ
  pub weight : ℕ
  pub body : List ℕ
  pub padding : List ℕ

abbrev pub for_stream : ℕ → HeadersFrame
for_stream id = record {
  header = header_for frame_headers id;
  pad_length = 0;
  stream_dependency = 0;
  weight = 0;
  body = [];
  padding = [];
}

-- The dependency and the weight, and the rest of the payload.
unfoldable pub read_priority : List ℕ → Option (ℕ × ℕ × List ℕ)
read_priority payload = do
  (dependency, payload) ← read_be 4 0 payload
  (weight, payload) ← read_be 1 0 payload
  some (dependency, weight, payload)

unfoldable pub take_priority : FrameHeader → List ℕ → Option (ℕ × ℕ × List ℕ)
unfolding read_priority
take_priority h payload =
    if has_any_flag h flag_priority then read_priority payload else some (0, 0, payload)

unfoldable pub priority_bytes : FrameHeader → ℕ → ℕ → List ℕ
priority_bytes h dependency weight =
    if has_any_flag h flag_priority then append_be 4 dependency ++ append_be 1 weight else []

unfoldable pub of_raw : RawFrame → Option HeadersFrame
of_raw frame = do
  (pad, payload) ← take_pad_length frame.header frame.body
  (dependency, weight, payload) ← take_priority frame.header payload
  (body, padding) ← split_padding pad payload
  some (record {
    header = frame.header;
    pad_length = pad;
    stream_dependency = dependency;
    weight = weight;
    body = body;
    padding = padding;
  })

unfoldable pub payload_bytes : HeadersFrame → List ℕ
payload_bytes f =
    pad_length_bytes f.header f.pad_length
    ++ (priority_bytes f.header f.stream_dependency f.weight
        ++ (f.body ++ padding_bytes f.header f.padding))

unfoldable pub to_bytes : HeadersFrame → List ℕ
unfolding payload_bytes
to_bytes f = encode f.header ++ payload_bytes f
