-- ===== src/Frame/SettingFrame.antt =====
-- struct SettingFrame (include/chttp2/frame.hpp, src/frame.cpp). A setting is its identifier and
-- its value.
use chttp.Prelude.{
  ℕ, zero, suc, ◌%◌, ◌==◌, List, [], ◌∷◌, ◌++◌, Option, none, some, if◌then◌else◌, length, ◌>>=◌,
}
use chttp.Bytes.{append_be, read_be}
use chttp.Frame.Header.{FrameHeader, encode, frame_settings, header_for}
use chttp.Frame.Raw.{RawFrame}

pub record SettingFrame : Type 0 where
  pub header : FrameHeader
  pub settings : List (ℕ × ℕ)

abbrev pub for_connection : SettingFrame
for_connection = record { header = header_for frame_settings 0; settings = [] }

-- The loop of the constructor. Each round takes six bytes, so the length of the payload is fuel
-- enough; `none` is a read out of range.
unfoldable pub read_settings : ℕ → List ℕ → Option (List (ℕ × ℕ))
read_settings fuel [] = some []
read_settings zero (b ∷ payload) = none
read_settings (suc fuel) (b ∷ payload) = do
  (id, payload) ← read_be 2 0 (b ∷ payload)
  (value, payload) ← read_be 4 0 payload
  settings ← read_settings fuel payload
  some ((id, value) ∷ settings)

unfoldable pub of_raw : RawFrame → Option SettingFrame
of_raw frame =
    if length frame.body % 6 == 0
    then (do
      settings ← read_settings (length frame.body) frame.body
      some (record { header = frame.header; settings = settings }))
    else some (record { header = frame.header; settings = [] })

unfoldable pub settings_bytes : List (ℕ × ℕ) → List ℕ
settings_bytes [] = []
settings_bytes ((id, value) ∷ settings) =
    append_be 2 id ++ (append_be 4 value ++ settings_bytes settings)

unfoldable pub to_bytes : SettingFrame → List ℕ
to_bytes f = encode f.header ++ settings_bytes f.settings
