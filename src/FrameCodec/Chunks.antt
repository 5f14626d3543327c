-- ===== src/FrameCodec/Chunks.antt =====
-- Popping frames until none is complete, as the loop of Http2Protocol::receiveBytes does
-- (src/http2_protocol.cpp), does not depend on how the bytes were split into reads.
use chttp.Prelude.{
  ℕ, zero, suc, ◌≤◌, ◌≡◌, refl, ap, ◌∙◌, List, [], ◌∷◌, ◌++◌, none, some, arith, length, inl, inr,
  Option-cases,
}
use chttp.Frame.Raw.{RawFrame}
use chttp.FrameCodec.{FrameCodec, feed, try_pop}
use chttp.FrameCodec.Pop.{try_pop-append, try_pop_shorter}

abbrev after_frame : RawFrame → List RawFrame × FrameCodec → List RawFrame × FrameCodec
after_frame f (fs, buffer) = (f ∷ fs, buffer)

-- Popped frames, oldest first, and what is left. A frame takes nine bytes at least, so the length
-- of the buffer is fuel enough.
drain_loop : ℕ → FrameCodec → List RawFrame × FrameCodec
drain_loop zero buffer = ([], buffer)
drain_loop (suc fuel) buffer = elim (try_pop buffer) [
  | none ↦ ([], buffer)
  | some (f, rest) ↦ after_frame f (drain_loop fuel rest)
]

pub drain : FrameCodec → List RawFrame × FrameCodec
unfolding drain_loop
drain buffer = drain_loop (length buffer) buffer

drain_loop-none :
    (fuel : ℕ) (buffer : FrameCodec) → try_pop buffer ≡ none → drain_loop fuel buffer ≡ ([], buffer)
unfolding drain_loop
drain_loop-none zero buffer e = refl
drain_loop-none (suc fuel) buffer e = rw (e, drain_loop)

drain_loop-some :
    (fuel : ℕ) (buffer : FrameCodec) (f : RawFrame) (rest : FrameCodec)
    → try_pop buffer ≡ some (f, rest)
    → drain_loop (suc fuel) buffer ≡ after_frame f (drain_loop fuel rest)
unfolding drain_loop
drain_loop-some fuel buffer f rest e = rw (e, drain_loop)

-- More fuel than bytes changes nothing.
drain_loop_fuel :
    (n m : ℕ) (buffer : FrameCodec)
    → length buffer ≤ n
    → length buffer ≤ m
    → drain_loop n buffer ≡ drain_loop m buffer
drain_loop_fuel zero zero buffer hn hm = refl
drain_loop_fuel zero (suc m) buffer hn hm = elim (Option-cases (try_pop buffer)) [
  | inl e ↦ rw (drain_loop-none zero buffer e, drain_loop-none (suc m) buffer e)
  | inr ((f, rest), e) ↦ absurd (omega (arith, try_pop_shorter buffer f rest e))
]
drain_loop_fuel (suc n) zero buffer hn hm = elim (Option-cases (try_pop buffer)) [
  | inl e ↦ rw (drain_loop-none zero buffer e, drain_loop-none (suc n) buffer e)
  | inr ((f, rest), e) ↦ absurd (omega (arith, try_pop_shorter buffer f rest e))
]
drain_loop_fuel (suc n) (suc m) buffer hn hm = elim (Option-cases (try_pop buffer)) [
  | inl e ↦ rw (drain_loop-none (suc n) buffer e, drain_loop-none (suc m) buffer e)
  | inr ((f, rest), e) ↦
      let shorter = try_pop_shorter buffer f rest e in
      rw (drain_loop-some n buffer f rest e, drain_loop-some m buffer f rest e)
        (ap (after_frame f)
          (drain_loop_fuel n m rest (omega (arith, shorter)) (omega (arith, shorter))))
]

-- `drain` is the loop: it stops where no frame is complete, and else goes on after the frame.
drain-none : (buffer : FrameCodec) → try_pop buffer ≡ none → drain buffer ≡ ([], buffer)
unfolding drain
drain-none buffer e = drain_loop-none (length buffer) buffer e

drain-some :
    (buffer : FrameCodec) (f : RawFrame) (rest : FrameCodec)
    → try_pop buffer ≡ some (f, rest)
    → drain buffer ≡ after_frame f (drain rest)
unfolding drain
drain-some buffer f rest e =
    let shorter = try_pop_shorter buffer f rest e in
    drain_loop_fuel (length buffer) (suc (length buffer)) buffer (omega arith) (omega arith)
    ∙ drain_loop-some (length buffer) buffer f rest e
    ∙ ap (after_frame f)
        (drain_loop_fuel (length buffer) (length rest) rest (omega (arith, shorter)) (omega arith))

-- The frames of two reads, one drained after the other.
abbrev pub then_drain : List RawFrame × FrameCodec → List ℕ → List RawFrame × FrameCodec
then_drain (fs, buffer) more = (fs ++ (drain (feed buffer more)).0, (drain (feed buffer more)).1)

drain-append_fuel :
    (fuel : ℕ) (buffer : FrameCodec) (more : List ℕ)
    → length buffer ≤ fuel
    → drain (feed buffer more) ≡ then_drain (drain buffer) more
unfolding feed
drain-append_fuel zero buffer more h = elim (Option-cases (try_pop buffer)) [
  | inl e ↦ rw (drain-none buffer e)
  | inr ((f, rest), e) ↦ absurd (omega (arith, try_pop_shorter buffer f rest e))
]
drain-append_fuel (suc fuel) buffer more h = elim (Option-cases (try_pop buffer)) [
  | inl e ↦ rw (drain-none buffer e)
  | inr ((f, rest), e) ↦
      let shorter = try_pop_shorter buffer f rest e in
      rw
        (
          drain-some (buffer ++ more) f (rest ++ more) (try_pop-append buffer more f rest e),
          drain-some buffer f rest e,
        )
        (ap (after_frame f) (drain-append_fuel fuel rest more (omega (arith, shorter))))
]

-- Feeding bytes, draining, feeding more and draining again gives the frames, in order, and leaves
-- the bytes, that draining both at once does.
pub drain-feed :
    (buffer : FrameCodec) (first second : List ℕ)
    → drain (feed (feed buffer first) second) ≡ then_drain (drain (feed buffer first)) second
drain-feed buffer first second =
    drain-append_fuel (length (feed buffer first)) (feed buffer first) second (omega arith)
