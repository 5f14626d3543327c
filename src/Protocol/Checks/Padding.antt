-- ===== src/Protocol/Checks/Padding.antt =====
-- What validatePaddedPayload (src/http2_protocol.cpp) accepts, the constructor of a DATA frame can
-- take apart.
use chttp.Prelude.{
  ℕ, ◌-◌, ◌≤◌, ◌<◌, ◌≡◌, ◌==◌, ltb, List, [], ◌∷◌, ◌++◌, some, true, false, not, inl, inr,
  Bool-cases, length, take, drop, length-take, take-append-drop, arith, refl, ap, ◌||◌, append-nil,
}
use chttp.Frame.Header.{FrameHeader, has_any_flag, flag_padded}
use chttp.Frame.Raw.{RawFrame, take_pad_length, split_padding, pad_length_bytes}
use chttp.Frame.DataFrame
use chttp.Frame.DataFrame.{DataFrame}
use chttp.Protocol.Checks.{accepted, padding_verdict, validate_padded_payload}

pub record SplitsPadding (pad : ℕ) (payload : List ℕ) (r : List ℕ × List ℕ) : Type 0 where
  pub runs : split_padding pad payload ≡ some r
  pub whole : r.0 ++ r.1 ≡ payload
  pub kept : length r.0 ≡ length payload - pad

pub split_padding_fits :
    (pad : ℕ) (payload : List ℕ)
    → pad ≤ length payload
    → (r : List ℕ × List ℕ) × SplitsPadding pad payload r
unfolding split_padding
split_padding_fits pad payload h =
    let n = length payload - pad in
    elim (Bool-cases (pad == 0)) [
      | inl t ↦ (
        (payload, []),
        record { runs = rw t refl; whole = append-nil payload; kept = ground arith },
      )
      | inr f ↦ (
        (take n payload, drop n payload),
        record {
          runs = rw f (ground arith);
          whole = take-append-drop n payload;
          kept = omega (arith, length-take n payload);
        },
      )
    ]

-- What is taken apart: the pad length, if there is one, the data and the padding are the payload.
pub record TakesApart (frame : RawFrame) (f : DataFrame) : Type 0 where
  pub runs : DataFrame.of_raw frame ≡ some f
  pub whole : pad_length_bytes frame.header f.pad_length ++ (f.body ++ f.padding) ≡ frame.body
  pub some_data : ltb 0 (length f.body) || not (has_any_flag frame.header flag_padded) ≡ true

padded :
    (h : FrameHeader) (pad : ℕ) (payload : List ℕ)
    → has_any_flag h flag_padded ≡ true
    → pad < length payload
    → (f : DataFrame) × TakesApart (record { header = h; body = pad ∷ payload }) f
unfolding DataFrame.of_raw take_pad_length pad_length_bytes
padded h pad payload flag fits =
    let (r, s) = split_padding_fits pad payload (omega arith) in
    (
      record { header = h; pad_length = pad; body = r.0; padding = r.1 },
      record {
        runs = rw (flag) (rw (s.runs) refl);
        whole = rw (flag) (ap (λ l. pad ∷ l) s.whole);
        some_data = ground (arith, s.kept);
      },
    )

unpadded :
    (frame : RawFrame)
    → has_any_flag frame.header flag_padded ≡ false
    → (f : DataFrame) × TakesApart frame f
unfolding DataFrame.of_raw take_pad_length pad_length_bytes
unpadded frame flag =
    let (r, s) = split_padding_fits 0 frame.body (omega arith) in
    (
      record { header = frame.header; pad_length = 0; body = r.0; padding = r.1 },
      record {
        runs = rw (flag) (rw (s.runs) refl);
        whole = rw (flag) s.whole;
        some_data = rw flag (ground arith);
      },
    )

-- A DATA frame that the check accepts, as long as its header says, is taken apart without a throw:
-- the pad length, the data and the padding are its payload, and a padded frame has some data.
pub validate_padded_payload-TakesApart :
    (frame : RawFrame)
    → frame.header.payload_length ≡ length frame.body
    → validate_padded_payload frame 0 ≡ accepted
    → (f : DataFrame) × TakesApart frame f
unfolding validate_padded_payload padding_verdict
validate_padded_payload-TakesApart frame size ok =
    elim (Bool-cases (has_any_flag frame.header flag_padded)) [
      | inr e ↦ unpadded frame e
      | inl e ↦ by_body frame.header frame.body size e ok
    ]
  where
    by_body :
        (h : FrameHeader) (bytes : List ℕ)
        → h.payload_length ≡ length bytes
        → has_any_flag h flag_padded ≡ true
        → validate_padded_payload (record { header = h; body = bytes }) 0 ≡ accepted
        → (f : DataFrame) × TakesApart (record { header = h; body = bytes }) f
    by_body h [] size e ok = absurd (ground arith)
    by_body h (pad ∷ payload) size e ok = padded h pad payload e (ground arith)
