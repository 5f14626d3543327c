-- ===== src/FrameCodec/Pop.antt =====
-- One call of FrameCodec::tryPop (src/frame_codec.cpp).
use chttp.Prelude.{
  ℕ, ◌+◌, ◌≤◌, ◌≡◌, ap, ◌∙◌, refl, sym, List, ◌++◌, some, arith, length, take, drop, length-append,
  take-length_append, drop-length_append, take-append_le, drop-append_le, length-drop, drop-add,
  inl, inr, Option-cases,
}
use chttp.Frame.Header.{FrameHeader, encode, decode}
use chttp.Frame.HeaderRoundTrip.{FitsWire, length-encode, decode-encode}
use chttp.Frame.Raw.{RawFrame}
use chttp.FrameCodec.{FrameCodec, try_pop}

-- What a successful `try_pop` has found: the header, and all its payload.
pub record Pops (buffer : FrameCodec) (f : RawFrame) (rest : FrameCodec) : Type 0 where
  pub complete : 9 + f.header.payload_length ≤ length buffer
  pub decoded : decode (take 9 buffer) ≡ some f.header
  pub payload : f.body ≡ take f.header.payload_length (drop 9 buffer)
  pub remains : rest ≡ drop (9 + f.header.payload_length) buffer

Pops-try_pop :
    (buffer : FrameCodec) (f : RawFrame) (rest : FrameCodec)
    → Pops buffer f rest
    → try_pop buffer ≡ some (f, rest)
unfolding try_pop
Pops-try_pop buffer f rest p = rw p.decoded (ground (arith, p.payload, p.remains))

pub try_pop-Pops :
    (buffer : FrameCodec) (f : RawFrame) (rest : FrameCodec)
    → try_pop buffer ≡ some (f, rest)
    → Pops buffer f rest
unfolding try_pop
try_pop-Pops buffer f rest e = elim (Option-cases (decode (take 9 buffer))) [
  | inl d ↦ absurd (ground (arith, d))
  | inr (h, d) ↦ ground (arith, d)
]

take_nine-encode : (h : FrameHeader) (bytes : List ℕ) → take 9 (encode h ++ bytes) ≡ encode h
unfolding encode
take_nine-encode h bytes = refl

drop_nine-encode : (h : FrameHeader) (bytes : List ℕ) → drop 9 (encode h ++ bytes) ≡ bytes
unfolding encode
drop_nine-encode h bytes = refl

-- A header that fits the wire, a payload of the length that the header says, and any bytes after
-- it: `try_pop` returns that frame and leaves the bytes after it.
pub try_pop-encode :
    (h : FrameHeader) (payload rest : List ℕ)
    → FitsWire h
    → length payload ≡ h.payload_length
    → try_pop (encode h ++ (payload ++ rest)) ≡ some (record { header = h; body = payload }, rest)
try_pop-encode h payload rest w e = Pops-try_pop (encode h ++ (payload ++ rest)) _ rest (record {
  complete = omega (
    arith,
    length-append (encode h) (payload ++ rest),
    length-append payload rest,
    length-encode h,
  );
  decoded = rw take_nine-encode (decode-encode h w);
  payload = rw (drop_nine-encode, ← e) (sym (take-length_append payload rest));
  remains =
      rw (drop-add 9 h.payload_length, drop_nine-encode, ← e)
        (sym (drop-length_append payload rest));
})

-- Bytes that arrive later do not change a frame that is complete.
pub try_pop-append :
    (buffer more : FrameCodec) (f : RawFrame) (rest : FrameCodec)
    → try_pop buffer ≡ some (f, rest)
    → try_pop (buffer ++ more) ≡ some (f, rest ++ more)
try_pop-append buffer more f rest e =
    let p = try_pop-Pops buffer f rest e in
    Pops-try_pop (buffer ++ more) f (rest ++ more) (record {
      complete = omega (arith, p.complete, length-append buffer more);
      decoded = rw (take-append_le 9 buffer more (omega (arith, p.complete))) p.decoded;
      payload = rw (drop-append_le 9 buffer more (omega (arith, p.complete))) (
          p.payload
          ∙ sym (
              take-append_le f.header.payload_length (drop 9 buffer) more
                (omega (arith, p.complete, length-drop 9 buffer))));
      remains = ap (λ r. r ++ more) p.remains ∙ sym (drop-append_le _ buffer more p.complete);
    })

-- A popped frame takes its 9 bytes of header at least.
pub try_pop_shorter :
    (buffer : FrameCodec) (f : RawFrame) (rest : FrameCodec)
    → try_pop buffer ≡ some (f, rest)
    → length rest + 9 ≤ length buffer
try_pop_shorter buffer f rest e =
    let p = try_pop-Pops buffer f rest e in
    omega (arith, p.complete, ap length p.remains, length-drop (9 + f.header.payload_length) buffer)
