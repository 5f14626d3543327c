-- ===== src/Frame/HeaderRoundTrip.antt =====
-- The nine bytes of a frame header (FrameHeader::encode and decode of src/frame.cpp).
use chttp.Prelude.{◌^◌, ◌<◌, ◌≡◌, some, length, arith, refl}
use chttp.Frame.Header.{FrameHeader, encode, decode, encoded_size}

-- The ranges of the C++ types, and of the 24-bit length and the 31-bit stream id on the wire.
pub record FitsWire (h : FrameHeader) : Type 0 where
  pub length_fits : h.payload_length < 2 ^ 24
  pub type_fits : h.type < 256
  pub flags_fit : h.flags < 256
  pub stream_fits : h.stream_id < 2 ^ 31

pub length-encode : (h : FrameHeader) → length (encode h) ≡ encoded_size
unfolding encode
length-encode h = refl

-- A header whose fields fit the wire is read back as it was written.
pub decode-encode : (h : FrameHeader) → FitsWire h → decode (encode h) ≡ some h
unfolding decode encode
decode-encode h w = ground arith
