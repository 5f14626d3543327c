-- ===== src/Protocol/Emit/Block.antt =====
-- The frames of a header block that emitRequestHeaders emits (src/http2_protocol.cpp).
use chttp.Prelude.{
  ℕ, zero, suc, ◌≤◌, ◌<◌, ◌≡◌, ◌==◌, min, leb, refl, sym, ◌∙◌, List, [], ◌∷◌, ◌++◌, append-nil, map,
  some, Bool, true, false, not, ◌&&◌, ◌||◌, inl, inr, Bool-cases, if◌then◌else◌, length, take, drop,
  take-append-drop, take-length_append, length-take, length-drop, All, arith,
}
use chttp.Frame.Header.{
  FrameHeader, set_flag, has_any_flag, flag_end_headers, flag_end_stream, header_for,
  frame_continuation,
}
use chttp.Frame.HeadersFrame
use chttp.Frame.HeadersFrame.{HeadersFrame}
use chttp.Frame.ContinuationFrame
use chttp.Frame.ContinuationFrame.{ContinuationFrame}
use chttp.Protocol.State.{Stream, StepResult, has_body}
use chttp.Protocol.Emit.{first_headers, continuations, emit_request_headers}

-- The part of the block that the frames carry.
unfoldable pub fragments : List ContinuationFrame → List ℕ
fragments [] = []
fragments (f ∷ frames) = f.body ++ fragments frames

-- Exactly the last frame ends the block.
unfoldable pub ends_at_last : List ContinuationFrame → Bool
ends_at_last [] = true
ends_at_last (f ∷ []) = has_any_flag f.header flag_end_headers
ends_at_last (f ∷ g ∷ frames) =
    not (has_any_flag f.header flag_end_headers) && ends_at_last (g ∷ frames)

abbrev pub FitsContinuation : ℕ → ContinuationFrame → Type 0
FitsContinuation max_frame_size f =
    (0 < length f.body)
    × (length f.body ≤ max_frame_size)
    × (f.header.payload_length ≡ length f.body)

pub record Splits (max_frame_size : ℕ) (span : List ℕ) (frames : List ContinuationFrame)
    : Type 0 where
  pub written : fragments frames ≡ span
  pub frames_fit : All (FitsContinuation max_frame_size) frames
  pub ended : ends_at_last frames ≡ true
  pub some_frames : (length frames == 0) ≡ (length span == 0)

-- The header of a frame of the loop.
abbrev header_of : ℕ → ℕ → Bool → FrameHeader
header_of id n last =
    let header = record (header_for frame_continuation id) { payload_length = n } in
    if last then set_flag header flag_end_headers else header

header_of_length : (id n : ℕ) (last : Bool) → (header_of id n last).payload_length ≡ n
unfolding set_flag
header_of_length id n true = refl
header_of_length id n false = refl

header_of_ends :
    (id n : ℕ) (last : Bool) → has_any_flag (header_of id n last) flag_end_headers ≡ last
unfolding set_flag has_any_flag
header_of_ends id n true = refl
header_of_ends id n false = refl

ends_at_last_cons :
    (f : ContinuationFrame) (frames : List ContinuationFrame)
    → has_any_flag f.header flag_end_headers ≡ (length frames == 0)
    → ends_at_last frames ≡ true
    → ends_at_last (f ∷ frames) ≡ true
unfolding ends_at_last
ends_at_last_cons f [] h e = ground arith
ends_at_last_cons f (g ∷ frames) h e = ground arith

both_nonempty : (m n : ℕ) → (suc m == 0) ≡ (suc n == 0)
both_nonempty m n = ground arith

-- The fuel is enough, and the frames are the block.
pub continuations-Splits :
    (fuel max_frame_size id : ℕ) (span : List ℕ)
    → 0 < max_frame_size
    → length span ≤ fuel
    → (frames : List ContinuationFrame) × (continuations fuel max_frame_size id span ≡ some frames)
      × Splits max_frame_size span frames
unfolding continuations fragments ends_at_last
continuations-Splits fuel max_frame_size id [] p le =
    ([], refl, record { written = refl; frames_fit = tt; ended = refl; some_frames = refl })
continuations-Splits zero max_frame_size id (b ∷ span) p le = absurd (omega arith)
continuations-Splits (suc fuel) max_frame_size id (b ∷ span) p le =
    let n = min max_frame_size (length (b ∷ span)) in
    let rest = drop n (b ∷ span) in
    let (frames, runs, r) =
      continuations-Splits fuel max_frame_size id rest p
        (omega (arith, length-drop n (b ∷ span))) in
    let size : length (take n (b ∷ span)) ≡ n = omega (arith, length-take n (b ∷ span)) in
    let f : ContinuationFrame = record {
      header = header_of id n (length rest == 0);
      body = take n (b ∷ span);
    } in
    (
      f ∷ frames,
      rw runs refl,
      record {
        written = rw r.written (take-append-drop n (b ∷ span));
        frames_fit = (
          (rw size (omega arith), rw size (omega arith), header_of_length id n _ ∙ sym size),
          r.frames_fit,
        );
        ended =
            ends_at_last_cons f frames (header_of_ends id n (length rest == 0) ∙ sym r.some_frames)
              r.ended;
        some_frames = both_nonempty (length frames) (length span);
      },
    )

pub record SplitsBlock (max_frame_size : ℕ) (s s' : Stream) (encoded : List ℕ)
    (first : HeadersFrame) (frames : List ContinuationFrame) : Type 0 where
  pub written : first.body ++ fragments frames ≡ encoded
  pub first_fits : length first.body ≤ max_frame_size
  pub first_length : first.header.payload_length ≡ length first.body
  pub frames_fit : All (FitsContinuation max_frame_size) frames
  pub ended : ends_at_last frames ≡ true
  pub first_ends : has_any_flag first.header flag_end_headers ≡ (length frames == 0)
  pub end_stream :
      has_any_flag first.header flag_end_stream
      ≡ leb (length encoded) max_frame_size && not (has_body s)
  pub same_id : s'.stream_id ≡ s.stream_id
  pub same_request : s'.rqst ≡ s.rqst
  pub same_response : s'.resp ≡ s.resp
  pub same_offset : s'.request_body_offset ≡ s.request_body_offset
  pub local_end :
      s'.local_end_stream_sent
      ≡ (leb (length encoded) max_frame_size && not (has_body s)) || s.local_end_stream_sent

abbrev first_of : ℕ → Stream → List ℕ → HeadersFrame
first_of max_frame_size s encoded = (first_headers max_frame_size s encoded).0

abbrev rest_of : ℕ → Stream → List ℕ → List ℕ
rest_of max_frame_size s encoded = (first_headers max_frame_size s encoded).1

record FirstHeaders (max_frame_size : ℕ) (s : Stream) (encoded : List ℕ)
    (r : HeadersFrame × List ℕ × Stream) : Type 0 where
  written : (r.0).body ++ r.1 ≡ encoded
  first_fits : length (r.0).body ≤ max_frame_size
  first_length : (r.0).header.payload_length ≡ length (r.0).body
  first_ends : has_any_flag (r.0).header flag_end_headers ≡ (length r.1 == 0)
  end_stream :
      has_any_flag (r.0).header flag_end_stream
      ≡ leb (length encoded) max_frame_size && not (has_body s)
  same_id : (r.2).stream_id ≡ s.stream_id
  same_request : (r.2).rqst ≡ s.rqst
  same_response : (r.2).resp ≡ s.resp
  same_offset : (r.2).request_body_offset ≡ s.request_body_offset
  local_end :
      (r.2).local_end_stream_sent
      ≡ (leb (length encoded) max_frame_size && not (has_body s)) || s.local_end_stream_sent

take_all : (n : ℕ) (xs : List ℕ) → n ≡ length xs → take n xs ≡ xs
take_all n xs e = rw e (rw (append-nil xs) at (take-length_append xs []))

first_headers-FirstHeaders :
    (max_frame_size : ℕ) (s : Stream) (encoded : List ℕ)
    → FirstHeaders max_frame_size s encoded (first_headers max_frame_size s encoded)
unfolding first_headers set_flag has_any_flag
first_headers-FirstHeaders max_frame_size s encoded =
    let n = min max_frame_size (length encoded) in
    let size : length (take n encoded) ≡ n = omega (arith, length-take n encoded) in
    elim (Bool-cases (n == length encoded)) [
      | inr f ↦
          let long : leb (length encoded) max_frame_size ≡ false = ground arith in
          rw f (record {
            written = take-append-drop n encoded;
            first_fits = rw size (omega arith);
            first_length = sym size;
            first_ends = ground (arith, length-drop n encoded);
            end_stream = rw long refl;
            same_id = refl;
            same_request = refl;
            same_response = refl;
            same_offset = refl;
            local_end = rw long refl;
          })
      | inl t ↦
          let short : leb (length encoded) max_frame_size ≡ true = ground arith in
          let whole : take n encoded ≡ encoded = take_all n encoded (ground arith) in
          rw t (elim (Bool-cases (has_body s)) [
            | inl b ↦ rw b (record {
              written = append-nil _ ∙ whole;
              first_fits = rw size (omega arith);
              first_length = sym size;
              first_ends = refl;
              end_stream = rw (short, b) refl;
              same_id = refl;
              same_request = refl;
              same_response = refl;
              same_offset = refl;
              local_end = rw (short, b) refl;
            })
            | inr b ↦ rw b (record {
              written = append-nil _ ∙ whole;
              first_fits = rw size (omega arith);
              first_length = sym size;
              first_ends = refl;
              end_stream = rw (short, b) refl;
              same_id = refl;
              same_request = refl;
              same_response = refl;
              same_offset = refl;
              local_end = rw (short, b) refl;
            })
          ])
    ]

-- With frames of one byte or more, a request's header block goes out whole and in order: a HEADERS
-- frame and then CONTINUATION frames within the frame size, the last of which ends the block. The
-- END_STREAM flag is set exactly if the request has no body and its block fits the HEADERS frame.
pub emit_request_headers-SplitsBlock :
    (max_frame_size : ℕ) (s : Stream) (encoded : List ℕ) (result : StepResult)
    → 0 < max_frame_size
    → (first : HeadersFrame) × (frames : List ContinuationFrame) × (s' : Stream)
      × (emit_request_headers max_frame_size s encoded result
          ≡ some (
            record result {
              outbound =
                  result.outbound
                  ++ (HeadersFrame.to_bytes first ∷ map ContinuationFrame.to_bytes frames);
            },
            s',
          ))
      × SplitsBlock max_frame_size s s' encoded first frames
unfolding emit_request_headers
emit_request_headers-SplitsBlock max_frame_size s encoded result p =
    let f = first_headers-FirstHeaders max_frame_size s encoded in
    let span = rest_of max_frame_size s encoded in
    let (frames, runs, r) =
      continuations-Splits (length span) max_frame_size s.stream_id span p (omega arith) in
    (
      first_of max_frame_size s encoded,
      frames,
      (first_headers max_frame_size s encoded).2,
      rw runs refl,
      record {
        written = rw r.written f.written;
        first_fits = f.first_fits;
        first_length = f.first_length;
        frames_fit = r.frames_fit;
        ended = r.ended;
        first_ends = f.first_ends ∙ sym r.some_frames;
        end_stream = f.end_stream;
        same_id = f.same_id;
        same_request = f.same_request;
        same_response = f.same_response;
        same_offset = f.same_offset;
        local_end = f.local_end;
      },
    )
