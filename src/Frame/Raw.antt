-- ===== src/Frame/Raw.antt =====
-- struct RawFrame of include/chttp2/frame.hpp, and the padding that the constructors of DATA,
-- HEADERS and PUSH_PROMISE frames in src/frame.cpp take off. The source's field `data` is called
-- `body`. `none` is the exception of a read out of range; where the pad length exceeds what is left
-- the code copies out of bounds before it throws, and the model has `none` there too.
use chttp.Prelude.{
  ℕ, ◌-◌, ◌==◌, ltb, List, [], ◌∷◌, Option, none, some, if◌then◌else◌, length, take, drop,
}
use chttp.Frame.Header.{FrameHeader, has_any_flag, flag_padded}

pub record RawFrame : Type 0 where
  pub header : FrameHeader
  pub body : List ℕ

-- `payload[0]` and `advance(1)`.
unfoldable pub take_pad_length : FrameHeader → List ℕ → Option (ℕ × List ℕ)
take_pad_length h payload = if has_any_flag h flag_padded then first payload else some (0, payload)
  where
    first : List ℕ → Option (ℕ × List ℕ)
    first [] = none
    first (b ∷ rest) = some (b, rest)

unfoldable pub split_padding : ℕ → List ℕ → Option (List ℕ × List ℕ)
split_padding pad payload =
    if pad == 0
    then some (payload, [])
    else if ltb (length payload) pad
    then none
    else some (take (length payload - pad) payload, drop (length payload - pad) payload)

-- What `toBytes` writes before and after the data of a padded frame.
unfoldable pub pad_length_bytes : FrameHeader → ℕ → List ℕ
pad_length_bytes h pad = if has_any_flag h flag_padded then pad ∷ [] else []

unfoldable pub padding_bytes : FrameHeader → List ℕ → List ℕ
padding_bytes h padding = if has_any_flag h flag_padded then padding else []
