-- ===== src/Frame/RoundTrip.antt =====
-- What `toBytes` writes after the header, the constructors of src/frame.cpp read back.
use chttp.Prelude.{
  ℕ, zero, suc, ◌*◌, ◌-◌, ◌%◌, ◌^◌, ◌≤◌, ◌<◌, ◌≡◌, refl, sym, ◌∙◌, List, [], ◌∷◌, ◌++◌, some, false,
  arith, length, length-append, take-length_append, drop-length_append, append-nil, inl, inr,
  Bool-cases, All,
}
use chttp.Bytes.{append_be}
use chttp.Frame.Header.{FrameHeader, has_any_flag, flag_padded, flag_priority}
use chttp.Frame.Raw.{take_pad_length, split_padding, pad_length_bytes, padding_bytes}
use chttp.Frame.DataFrame
use chttp.Frame.DataFrame.{DataFrame}
use chttp.Frame.HeadersFrame
use chttp.Frame.HeadersFrame.{HeadersFrame}
use chttp.Frame.RstStreamFrame
use chttp.Frame.RstStreamFrame.{RstStreamFrame}
use chttp.Frame.SettingFrame
use chttp.Frame.SettingFrame.{SettingFrame}
use chttp.Frame.PushPromiseFrame
use chttp.Frame.PushPromiseFrame.{PushPromiseFrame}
use chttp.Frame.GoAwayFrame
use chttp.Frame.GoAwayFrame.{GoAwayFrame}
use chttp.Frame.WindowUpdateFrame
use chttp.Frame.WindowUpdateFrame.{WindowUpdateFrame}

-- The padding of a frame: none without the PADDED flag, and with it as long as the pad length.
pub record IsPadding (h : FrameHeader) (pad : ℕ) (padding : List ℕ) : Type 0 where
  pub length_is : length padding ≡ pad
  pub unpadded : has_any_flag h flag_padded ≡ false → pad ≡ 0

take_pad_length-append :
    (h : FrameHeader) (pad : ℕ) (padding bytes : List ℕ)
    → IsPadding h pad padding
    → take_pad_length h (pad_length_bytes h pad ++ bytes) ≡ some (pad, bytes)
unfolding take_pad_length pad_length_bytes
take_pad_length-append h pad padding bytes w = elim (Bool-cases (has_any_flag h flag_padded)) [
  | inl e ↦ rw e refl
  | inr e ↦ rw e (rw (w.unpadded e) refl)
]

nil_of_length : (bytes : List ℕ) → length bytes ≡ 0 → bytes ≡ []
nil_of_length [] e = refl
nil_of_length (b ∷ bytes) e = absurd (omega arith)

padding_bytes_lem :
    (h : FrameHeader) (pad : ℕ) (padding : List ℕ)
    → IsPadding h pad padding
    → padding_bytes h padding ≡ padding
unfolding padding_bytes
padding_bytes_lem h pad padding w = elim (Bool-cases (has_any_flag h flag_padded)) [
  | inl e ↦ rw e
  | inr e ↦ rw e (sym (nil_of_length padding (w.length_is ∙ w.unpadded e)))
]

split_padding-length :
    (body padding : List ℕ)
    → split_padding (length padding) (body ++ padding) ≡ some (body, padding)
unfolding split_padding
split_padding-length body [] = rw append-nil
split_padding-length body (x ∷ padding) =
    let e : length (body ++ x ∷ padding) - suc (length padding) ≡ length body =
      omega (arith, length-append body (x ∷ padding)) in
    ground (
      arith,
      e,
      length-append body (x ∷ padding),
      take-length_append body (x ∷ padding),
      drop-length_append body (x ∷ padding),
    )

split_padding-append :
    (h : FrameHeader) (pad : ℕ) (body padding : List ℕ)
    → IsPadding h pad padding
    → split_padding pad (body ++ padding_bytes h padding) ≡ some (body, padding)
split_padding-append h pad body padding w =
    rw (padding_bytes_lem h pad padding w, ← w.length_is) (split_padding-length body padding)

abbrev pub FitsSetting : ℕ × ℕ → Type 0
FitsSetting (id, value) = (id < 2 ^ 16) × (value < 2 ^ 32)

read_settings-bytes :
    (settings : List (ℕ × ℕ)) (fuel : ℕ)
    → All FitsSetting settings
    → length settings ≤ fuel
    → SettingFrame.read_settings fuel (SettingFrame.settings_bytes settings) ≡ some settings
unfolding SettingFrame.read_settings SettingFrame.settings_bytes
read_settings-bytes [] zero w h = refl
read_settings-bytes [] (suc fuel) w h = refl
read_settings-bytes (s ∷ settings) zero w h = absurd (omega arith)
read_settings-bytes ((id, value) ∷ settings) (suc fuel) w h =
    rw (read_settings-bytes settings fuel w.1 (omega arith)) (ground arith)

-- Each frame is read back from its payload.
pub data_of_raw :
    (f : DataFrame)
    → IsPadding f.header f.pad_length f.padding
    → DataFrame.of_raw (record { header = f.header; body = DataFrame.payload_bytes f }) ≡ some f
unfolding DataFrame.of_raw DataFrame.payload_bytes
data_of_raw f w =
    rw (take_pad_length-append f.header f.pad_length f.padding _ w)
      (rw (split_padding-append f.header f.pad_length f.body f.padding w))

-- The priority of a HEADERS frame: none without the PRIORITY flag.
pub record IsPriority (h : FrameHeader) (dependency weight : ℕ) : Type 0 where
  pub dependency_fits : dependency < 2 ^ 32
  pub weight_fits : weight < 256
  pub no_dependency : has_any_flag h flag_priority ≡ false → dependency ≡ 0
  pub no_weight : has_any_flag h flag_priority ≡ false → weight ≡ 0

read_priority-append :
    (dependency weight : ℕ) (bytes : List ℕ)
    → dependency < 2 ^ 32
    → weight < 256
    → HeadersFrame.read_priority ((append_be 4 dependency ++ append_be 1 weight) ++ bytes)
      ≡ some (dependency, weight, bytes)
unfolding HeadersFrame.read_priority
read_priority-append dependency weight bytes hd hw = ground arith

take_priority-append :
    (h : FrameHeader) (dependency weight : ℕ) (bytes : List ℕ)
    → IsPriority h dependency weight
    → HeadersFrame.take_priority h (HeadersFrame.priority_bytes h dependency weight ++ bytes)
      ≡ some (dependency, weight, bytes)
unfolding HeadersFrame.take_priority HeadersFrame.priority_bytes
take_priority-append h dependency weight bytes w =
    elim (Bool-cases (has_any_flag h flag_priority)) [
      | inl e ↦ rw e (read_priority-append dependency weight bytes w.dependency_fits w.weight_fits)
      | inr e ↦ rw e (rw (w.no_dependency e, w.no_weight e))
    ]

pub headers_of_raw :
    (f : HeadersFrame)
    → IsPadding f.header f.pad_length f.padding
    → IsPriority f.header f.stream_dependency f.weight
    → HeadersFrame.of_raw (record { header = f.header; body = HeadersFrame.payload_bytes f })
      ≡ some f
unfolding HeadersFrame.of_raw HeadersFrame.payload_bytes
headers_of_raw f w p = rw (take_pad_length-append f.header f.pad_length f.padding _ w) (
    rw (take_priority-append f.header f.stream_dependency f.weight _ p)
      (rw (split_padding-append f.header f.pad_length f.body f.padding w)))

pub rst_stream_of_raw :
    (f : RstStreamFrame)
    → f.error_code < 2 ^ 32
    → RstStreamFrame.of_raw (record { header = f.header; body = append_be 4 f.error_code }) ≡ some f
unfolding RstStreamFrame.of_raw
rst_stream_of_raw f h = ground arith

length-settings_bytes :
    (settings : List (ℕ × ℕ)) → length (SettingFrame.settings_bytes settings) ≡ length settings * 6
unfolding SettingFrame.settings_bytes
length-settings_bytes [] = omega arith
length-settings_bytes ((id, value) ∷ settings) = omega (arith, length-settings_bytes settings)

pub settings_of_raw :
    (f : SettingFrame)
    → All FitsSetting f.settings
    → SettingFrame.of_raw
        (record { header = f.header; body = SettingFrame.settings_bytes f.settings })
      ≡ some f
unfolding SettingFrame.of_raw
settings_of_raw f w =
    let n = length-settings_bytes f.settings in
    let e : length (SettingFrame.settings_bytes f.settings) % 6 ≡ 0 = omega (arith, n) in
    let fuel = length (SettingFrame.settings_bytes f.settings) in
    rw e (rw (read_settings-bytes f.settings fuel w (omega (arith, n))))

pub push_promise_of_raw :
    (f : PushPromiseFrame)
    → IsPadding f.header f.pad_length f.padding
    → f.promised_stream_id < 2 ^ 31
    → PushPromiseFrame.of_raw
        (record { header = f.header; body = PushPromiseFrame.payload_bytes f })
      ≡ some f
unfolding PushPromiseFrame.of_raw PushPromiseFrame.payload_bytes
push_promise_of_raw f w h =
    rw (take_pad_length-append f.header f.pad_length f.padding _ w)
      (rw (split_padding-append f.header f.pad_length f.body f.padding w) (ground arith))

pub goaway_of_raw :
    (f : GoAwayFrame)
    → f.last_stream_id < 2 ^ 31
    → f.error_code < 2 ^ 32
    → GoAwayFrame.of_raw (record {
      header = f.header;
      body = append_be 4 f.last_stream_id ++ (append_be 4 f.error_code ++ f.body);
    })
      ≡ some f
unfolding GoAwayFrame.of_raw
goaway_of_raw f h k = ground arith

pub window_update_of_raw :
    (f : WindowUpdateFrame)
    → f.window_size_increment < 2 ^ 32
    → WindowUpdateFrame.of_raw
        (record { header = f.header; body = append_be 4 f.window_size_increment })
      ≡ some f
unfolding WindowUpdateFrame.of_raw
window_update_of_raw f h = ground arith
