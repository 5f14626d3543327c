-- ===== src/FrameCodec.antt =====
-- include/chttp2/frame_codec.hpp and src/frame_codec.cpp: the received bytes that do not yet make
-- a whole frame. `none` is the `false` of tryPop, which leaves the buffer as it was.
pub mod Pop
pub mod Chunks
pub mod Wire
use chttp.Prelude.{
  ℕ, zero, suc, ◌+◌, ltb, List, [], ◌∷◌, ◌++◌, Option, none, some, if◌then◌else◌, length, take,
  drop, ◌>>=◌,
}
use chttp.Frame.Header.{decode, encoded_size}
use chttp.Frame.Raw.{RawFrame}

abbrev pub FrameCodec : Type 0
FrameCodec = List ℕ

unfoldable pub feed : FrameCodec → List ℕ → FrameCodec
feed buffer bytes = buffer ++ bytes

unfoldable pub try_pop : FrameCodec → Option (RawFrame × FrameCodec)
try_pop buffer = if ltb (length buffer) encoded_size then none else do
  header ← decode (take encoded_size buffer)
  let total_size = encoded_size + header.payload_length
  if ltb (length buffer) total_size
      then none
      else some (
        record { header = header; body = take header.payload_length (drop encoded_size buffer) },
        drop total_size buffer,
      )

unfoldable pub clear : FrameCodec → FrameCodec
clear buffer = []
