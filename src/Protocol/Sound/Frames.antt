-- ===== src/Protocol/Sound/Frames.antt =====
-- The frames that the checks of the handlers let through (src/http2_protocol.cpp) are taken apart
-- without an exception by the constructors of src/frame.cpp.
use chttp.Prelude.{
  ℕ, zero, suc, ◌+◌, ◌*◌, ◌%◌, ◌≤◌, ◌<◌, ◌==◌, ◌≡◌, refl, List, [], ◌∷◌, some, true, inl, inr,
  Bool-cases, if◌then◌else◌, arith, length,
}
use chttp.Bytes.{read_be}
use chttp.Frame.Header.{FrameHeader, has_any_flag, flag_padded, flag_priority}
use chttp.Frame.Raw.{RawFrame, take_pad_length}
use chttp.Frame.HeadersFrame
use chttp.Frame.HeadersFrame.{HeadersFrame, take_priority, read_priority}
use chttp.Frame.RstStreamFrame
use chttp.Frame.RstStreamFrame.{RstStreamFrame}
use chttp.Frame.PushPromiseFrame
use chttp.Frame.PushPromiseFrame.{PushPromiseFrame}
use chttp.Frame.GoAwayFrame
use chttp.Frame.GoAwayFrame.{GoAwayFrame}
use chttp.Frame.WindowUpdateFrame
use chttp.Frame.WindowUpdateFrame.{WindowUpdateFrame}
use chttp.Frame.SettingFrame
use chttp.Frame.SettingFrame.{SettingFrame, read_settings}
use chttp.Protocol.Checks.{accepted, padding_verdict, validate_padded_payload}
use chttp.Protocol.Checks.Padding.{split_padding_fits}

record Reads (k acc : ℕ) (span : List ℕ) (r : ℕ × List ℕ) : Type 0 where
  runs : read_be k acc span ≡ some r
  left : length r.1 + k ≡ length span

read_be-Reads :
    (k acc : ℕ) (span : List ℕ) → k ≤ length span → (r : ℕ × List ℕ) × Reads k acc span r
read_be-Reads zero acc span le = ((acc, span), record { runs = refl; left = omega arith })
read_be-Reads (suc k) acc [] le = absurd (omega arith)
read_be-Reads (suc k) acc (b ∷ span) le =
    let (r, reads) = read_be-Reads k (acc * 256 + b) span (omega arith) in
    (r, record { runs = reads.runs; left = omega (arith, reads.left) })

-- What is left of a payload once its pad length, if there is one, is read.
record Unpads (frame : RawFrame) (fixed_prefix_bytes : ℕ) (r : ℕ × List ℕ) : Type 0 where
  runs : take_pad_length frame.header frame.body ≡ some r
  fits : fixed_prefix_bytes + r.0 ≤ length r.1

unpad :
    (h : FrameHeader) (body : List ℕ) (fixed_prefix_bytes : ℕ)
    → h.payload_length ≡ length body
    → validate_padded_payload (record { header = h; body = body }) fixed_prefix_bytes ≡ accepted
    → (r : ℕ × List ℕ) × Unpads (record { header = h; body = body }) fixed_prefix_bytes r
unfolding validate_padded_payload padding_verdict take_pad_length
unpad h body n size ok = elim (Bool-cases (has_any_flag h flag_padded)) [
  | inr f ↦ ((0, body), record { runs = rw f refl; fits = ground arith })
  | inl t ↦ padded t body size ok
]
  where
    padded :
        has_any_flag h flag_padded ≡ true
        → (bytes : List ℕ) → h.payload_length ≡ length bytes
        → validate_padded_payload (record { header = h; body = bytes }) n ≡ accepted
        → (r : ℕ × List ℕ) × Unpads (record { header = h; body = bytes }) n r
    padded t [] size ok = absurd (ground arith)
    padded t (pad ∷ payload) size ok =
        ((pad, payload), record { runs = rw t refl; fits = ground arith })

pub HeadersFrame-of_raw :
    (frame : RawFrame)
    → frame.header.payload_length ≡ length frame.body
    → validate_padded_payload frame (if has_any_flag frame.header flag_priority then 5 else 0)
      ≡ accepted
    → (f : HeadersFrame) × (HeadersFrame.of_raw frame ≡ some f)
unfolding HeadersFrame.of_raw take_priority read_priority
HeadersFrame-of_raw frame size ok = elim (Bool-cases (has_any_flag frame.header flag_priority)) [
  | inl t ↦
      let ((pad, payload), u) = unpad frame.header frame.body 5 size (rw t at ok) in
      let ((dependency, rest), first) = read_be-Reads 4 0 payload (omega (arith, u.fits)) in
      let ((weight, rest'), second) = read_be-Reads 1 0 rest (omega (arith, u.fits, first.left)) in
      let (parts, s) =
        split_padding_fits pad rest' (omega (arith, u.fits, first.left, second.left)) in
      rw (u.runs, t, first.runs, second.runs, s.runs) (_, refl)
  | inr e ↦
      let ((pad, payload), u) = unpad frame.header frame.body 0 size (rw e at ok) in
      let (parts, s) = split_padding_fits pad payload (omega (arith, u.fits)) in
      rw (u.runs, e, s.runs) (_, refl)
]

pub PushPromiseFrame-of_raw :
    (frame : RawFrame)
    → frame.header.payload_length ≡ length frame.body
    → validate_padded_payload frame 4 ≡ accepted
    → (f : PushPromiseFrame) × (PushPromiseFrame.of_raw frame ≡ some f)
unfolding PushPromiseFrame.of_raw
PushPromiseFrame-of_raw frame size ok =
    let ((pad, payload), u) = unpad frame.header frame.body 4 size ok in
    let ((promised, rest), reads) = read_be-Reads 4 0 payload (omega (arith, u.fits)) in
    let (parts, s) = split_padding_fits pad rest (omega (arith, u.fits, reads.left)) in
    rw (u.runs, reads.runs, s.runs) (_, refl)

pub RstStreamFrame-of_raw :
    (frame : RawFrame)
    → 4 ≤ length frame.body
    → (f : RstStreamFrame) × (RstStreamFrame.of_raw frame ≡ some f)
unfolding RstStreamFrame.of_raw
RstStreamFrame-of_raw frame le =
    let ((code, rest), reads) = read_be-Reads 4 0 frame.body le in rw reads.runs (_, refl)

pub WindowUpdateFrame-of_raw :
    (frame : RawFrame)
    → 4 ≤ length frame.body
    → (f : WindowUpdateFrame) × (WindowUpdateFrame.of_raw frame ≡ some f)
unfolding WindowUpdateFrame.of_raw
WindowUpdateFrame-of_raw frame le =
    let ((increment, rest), reads) = read_be-Reads 4 0 frame.body le in rw reads.runs (_, refl)

pub GoAwayFrame-of_raw :
    (frame : RawFrame)
    → 8 ≤ length frame.body
    → (f : GoAwayFrame) × (GoAwayFrame.of_raw frame ≡ some f)
unfolding GoAwayFrame.of_raw
GoAwayFrame-of_raw frame le =
    let ((last, rest), first) = read_be-Reads 4 0 frame.body (omega arith) in
    let ((code, rest'), second) = read_be-Reads 4 0 rest (omega (arith, first.left)) in
    rw (first.runs, second.runs) (_, refl)

six_left : (n : ℕ) → 0 < n → n % 6 ≡ 0 → 6 ≤ n
six_left n some_bytes whole = omega arith

read_settings_total :
    (fuel : ℕ) (payload : List ℕ)
    → length payload ≤ fuel
    → length payload % 6 ≡ 0
    → (settings : List (ℕ × ℕ)) × (read_settings fuel payload ≡ some settings)
unfolding read_settings
read_settings_total fuel [] le whole = ([], refl)
read_settings_total zero (b ∷ payload) le whole = absurd (omega arith)
read_settings_total (suc fuel) (b ∷ payload) le whole =
    let six = six_left (length (b ∷ payload)) (omega arith) whole in
    let ((id, rest), first) = read_be-Reads 2 0 (b ∷ payload) (omega arith) in
    let ((value, rest'), second) = read_be-Reads 4 0 rest (omega (arith, first.left)) in
    let (settings, more) =
      read_settings_total fuel rest' (omega (arith, first.left, second.left))
        (omega (arith, first.left, second.left)) in
    rw (first.runs, second.runs, more) (_, refl)

pub SettingFrame-of_raw :
    (frame : RawFrame) → (f : SettingFrame) × (SettingFrame.of_raw frame ≡ some f)
unfolding SettingFrame.of_raw
SettingFrame-of_raw frame = elim (Bool-cases (length frame.body % 6 == 0)) [
  | inr e ↦ rw e (_, refl)
  | inl t ↦
      let (settings, runs) =
        read_settings_total (length frame.body) frame.body (omega arith) (ground arith) in
      rw (t, runs) (_, refl)
]
