-- ===== src/Examples/Codec.antt =====
-- Concrete frames (src/frame.cpp, src/frame_codec.cpp).
use chttp.Prelude.{[], ◌∷◌, ◌++◌, ◌≡◌, some, arith, refl, codes}
use chttp.Frame.Header.{FrameHeader, encode, decode, frame_data, has_any_flag}
use chttp.Frame.HeaderRoundTrip.{FitsWire, decode-encode}
use chttp.Frame.Raw.{pad_length_bytes, padding_bytes}
use chttp.Frame.DataFrame
use chttp.Frame.DataFrame.{DataFrame}
use chttp.FrameCodec.{feed}
use chttp.FrameCodec.Wire.{data_frame, payload_bytes, to_bytes, receive, receive-to_bytes}
use chttp.FrameCodec.Chunks.{drain, then_drain, drain-feed}

abbrev padded_header : FrameHeader
padded_header = record { payload_length = 6; type = frame_data; flags = 9; stream_id = 3 }

abbrev padded : DataFrame
padded = record { header = padded_header; pad_length = 2; body = codes "abc"; padding = 0 ∷ 0 ∷ [] }

padded_header-FitsWire : FitsWire padded_header
padded_header-FitsWire = record {
  length_fits = omega arith;
  type_fits = omega arith;
  flags_fit = omega arith;
  stream_fits = omega arith;
}

decode-encode_example : decode (encode padded_header) ≡ some padded_header
decode-encode_example = decode-encode padded_header padded_header-FitsWire

receive-to_bytes_example :
    receive (to_bytes (data_frame padded) ++ (1 ∷ 2 ∷ [])) ≡ some (data_frame padded, 1 ∷ 2 ∷ [])
unfolding payload_bytes DataFrame.payload_bytes pad_length_bytes padding_bytes has_any_flag
receive-to_bytes_example =
    receive-to_bytes (data_frame padded) (1 ∷ 2 ∷ [])
      (refl, record { length_is = refl; unpadded = λ e. cc e }) padded_header-FitsWire refl

drain-feed_example :
    drain (feed (feed [] (0 ∷ 0 ∷ 1 ∷ 6 ∷ [])) (0 ∷ 0 ∷ 0 ∷ 0 ∷ 0 ∷ 7 ∷ 8 ∷ []))
    ≡ then_drain (drain (feed [] (0 ∷ 0 ∷ 1 ∷ 6 ∷ []))) (0 ∷ 0 ∷ 0 ∷ 0 ∷ 0 ∷ 7 ∷ 8 ∷ [])
drain-feed_example = drain-feed [] (0 ∷ 0 ∷ 1 ∷ 6 ∷ []) (0 ∷ 0 ∷ 0 ∷ 0 ∷ 0 ∷ 7 ∷ 8 ∷ [])
