-- ===== src/Protocol/Emit/Body.antt =====
-- The loop of emitPendingRequestBody (src/http2_protocol.cpp): what it sends, and when it stops.
-- The child is about one round.
pub mod Chunk
use chttp.Prelude.{
  ℕ, zero, suc, ◌+◌, ◌≤◌, ◌<◌, ◌≡◌, ◌==◌, ◌⊎◌, ltb, refl, sym, ap, ◌∙◌, List, [], ◌∷◌, ◌++◌,
  append_assoc, some, Bool, true, false, ◌&&◌, ◌||◌, inl, inr, Bool-cases, if◌then◌else◌, length,
  take, drop, take-append-drop, length-append, length-take, length-drop, drop-add, All, arith,
}
use chttp.Prelude.Int.{ℤ, pos, pos_part, ◌+ℤ◌, ◌≤ℤ◌, int_laws, eq_of_parts}
use chttp.Flow.Send.{available-take}
use chttp.Flow.OutFlow
use chttp.Flow.OutFlow.{OutFlow}
use chttp.Frame.Header.{FrameHeader, set_flag, header_for, frame_data, flag_end_stream}
use chttp.Frame.DataFrame.{DataFrame}
use chttp.Protocol.State.{Stream, remaining_body_size}
use chttp.Protocol.Emit.{chunk_size, spend, emit_chunk, emit_body}
use chttp.Protocol.Emit.Body.Chunk.{
  le_of_pos_part, EmitsChunk, emit_chunk-EmitsChunk, chunk_bounds, chunk_zero, chunk_length,
}

-- The part of the body that the frames carry.
unfoldable pub sent : List DataFrame → List ℕ
sent [] = []
sent (f ∷ frames) = f.body ++ sent frames

abbrev pub FitsFrame : ℕ → DataFrame → Type 0
FitsFrame max_frame_size f =
    (0 < length f.body)
    × (length f.body ≤ max_frame_size)
    × (f.header.payload_length ≡ length f.body)

-- The headers of the frames of a stream: DATA, and END_STREAM on the last frame if it is to end the
-- stream, and on no other.
abbrev pub Marks : ℕ → Bool → List DataFrame → Type 0
Marks id ends [] = Unit
Marks id ends (f ∷ frames) =
    (f.header.type ≡ frame_data)
    × (f.header.stream_id ≡ id)
    × (f.header.flags ≡ (if ends && length frames == 0 then flag_end_stream else 0))
    × Marks id ends frames

pub record EmitsBody (max_frame_size : ℕ) (conn : OutFlow) (s : Stream) (frames : List DataFrame)
    (conn' : OutFlow) (s' : Stream) : Type 0 where
  pub same_request : s'.rqst ≡ s.rqst
  pub same_id : s'.stream_id ≡ s.stream_id
  pub same_response : s'.resp ≡ s.resp
  pub same_remote : s'.remote_end_stream_received ≡ s.remote_end_stream_received
  pub forward : s.request_body_offset ≤ s'.request_body_offset
  pub within_body : s'.request_body_offset ≤ length s.rqst.body
  pub written :
      sent frames ++ drop s'.request_body_offset s.rqst.body
      ≡ drop s.request_body_offset s.rqst.body
  pub frames_fit : All (FitsFrame max_frame_size) frames
  pub marked : Marks s.stream_id (remaining_body_size s' == 0) frames
  pub conn_spent : conn.window ≡ conn'.window +ℤ pos (length (sent frames))
  pub stream_spent : s.outflow.window ≡ s'.outflow.window +ℤ pos (length (sent frames))
  pub within_windows : length (sent frames) ≤ pos_part (OutFlow.available (some conn) s.outflow)
  pub stops :
      (remaining_body_size s' ≡ 0) ⊎ (pos_part (OutFlow.available (some conn') s'.outflow) ≡ 0)
  pub ended :
      s'.local_end_stream_sent
      ≡ s.local_end_stream_sent || (ltb 0 (remaining_body_size s) && remaining_body_size s' == 0)

add_two : (b : ℤ) (n m : ℕ) → (b +ℤ pos m) +ℤ pos n ≡ b +ℤ pos (n + m)
add_two b n m = eq_of_parts _ _ (omega int_laws)

windows_add :
    (a b : ℤ) (n m : ℕ) → a +ℤ pos n ≡ b → n ≤ pos_part b → m ≤ pos_part a → n + m ≤ pos_part b
unfolding ◌+ℤ◌
windows_add a b n m e h k = ground arith

nothing_more :
    (max_frame_size : ℕ) (conn : OutFlow) (s : Stream)
    → 0 < max_frame_size
    → s.request_body_offset ≤ length s.rqst.body
    → chunk_size max_frame_size conn s ≡ 0
    → EmitsBody max_frame_size conn s [] conn s
unfolding sent
nothing_more max_frame_size conn s h within e = record {
  same_request = refl;
  same_id = refl;
  same_response = refl;
  same_remote = refl;
  forward = omega arith;
  within_body = within;
  written = refl;
  frames_fit = tt;
  marked = tt;
  conn_spent = eq_of_parts _ _ (omega int_laws);
  stream_spent = eq_of_parts _ _ (omega int_laws);
  within_windows = omega arith;
  stops = chunk_zero max_frame_size conn s h e;
  ended = ground arith;
}

written_more :
    (n : ℕ) (s s1 : Stream) (bytes more rest : List ℕ)
    → s1.rqst ≡ s.rqst
    → s1.request_body_offset ≡ s.request_body_offset + n
    → bytes ≡ take n (drop s.request_body_offset s.rqst.body)
    → more ++ rest ≡ drop s1.request_body_offset s.rqst.body
    → bytes ++ (more ++ rest) ≡ drop s.request_body_offset s.rqst.body
written_more n s s1 bytes more rest same offset e h =
    rw (h, offset, e, drop-add) (take-append-drop n (drop s.request_body_offset s.rqst.body))

ended_more :
    (r r1 r2 : ℕ) (b b1 : Bool)
    → r2 ≤ r1
    → 0 < r
    → b1 ≡ (r1 == 0) || b
    → b1 || (ltb 0 r1 && r2 == 0) ≡ b || (ltb 0 r && r2 == 0)
ended_more r r1 r2 b b1 h p e = ground arith

empty_or_some :
    (max_frame_size : ℕ) (frames : List DataFrame)
    → All (FitsFrame max_frame_size) frames
    → ((length frames ≡ 0) × (length (sent frames) ≡ 0))
      ⊎ ((0 < length frames) × (0 < length (sent frames)))
unfolding sent
empty_or_some max_frame_size [] h = inl (refl, refl)
empty_or_some max_frame_size (f ∷ frames) ((some_bytes, _, _), h) =
    inr (omega arith, omega (arith, length-append f.body (sent frames)))

sent_rest :
    (max_frame_size : ℕ) (c1 c2 : OutFlow) (s1 s2 : Stream) (frames : List DataFrame)
    → EmitsBody max_frame_size c1 s1 frames c2 s2
    → length (sent frames) + remaining_body_size s2 ≡ remaining_body_size s1
sent_rest max_frame_size c1 c2 s1 s2 frames e = rw e.same_request (
    omega (
      arith,
      ap length e.written,
      length-append (sent frames) (drop s2.request_body_offset s1.rqst.body),
      length-drop s1.request_body_offset s1.rqst.body,
      length-drop s2.request_body_offset s1.rqst.body,
    ))

-- The round that empties the body is the last.
last_flags :
    (left rest size frames : ℕ)
    → size + rest ≡ left
    → ((frames ≡ 0) × (size ≡ 0)) ⊎ ((0 < frames) × (0 < size))
    → (if left == 0 then flag_end_stream else 0)
      ≡ (if rest == 0 && frames == 0 then flag_end_stream else 0)
last_flags left rest size frames e h = ground arith

same_length : (s s1 : Stream) → s1.rqst ≡ s.rqst → length s1.rqst.body ≡ length s.rqst.body
same_length s s1 e = rw e

one_more :
    (max_frame_size n : ℕ) (conn c1 c2 : OutFlow) (s s1 s2 : Stream) (f : DataFrame)
    (fs : List DataFrame)
    → 0 < n
    → n ≤ max_frame_size
    → n ≤ remaining_body_size s
    → n ≤ pos_part (OutFlow.available (some conn) s.outflow)
    → EmitsChunk n conn s f c1 s1
    → EmitsBody max_frame_size c1 s1 fs c2 s2
    → EmitsBody max_frame_size conn s (f ∷ fs) c2 s2
unfolding sent
one_more max_frame_size n conn c1 c2 s s1 s2 f fs p le left win one rest =
    let size : length f.body ≡ n = chunk_length n s f.body left one.bytes in
    let total : length (f.body ++ sent fs) ≡ n + length (sent fs) =
      rw length-append (rw size refl) in
    let same : length s1.rqst.body ≡ length s.rqst.body = same_length s s1 one.same_request in
    record {
      same_request = rest.same_request ∙ one.same_request;
      same_id = rest.same_id ∙ one.same_id;
      same_response = rest.same_response ∙ one.same_response;
      same_remote = rest.same_remote ∙ one.same_remote;
      forward = omega (arith, rest.forward, one.offset);
      within_body = rw same at rest.within_body;
      written = rw append_assoc (
          written_more n s s1 f.body (sent fs) (drop s2.request_body_offset s.rqst.body)
            one.same_request one.offset one.bytes (rw one.same_request at rest.written));
      frames_fit = ((rw size p, rw size le, one.payload ∙ sym size), rest.frames_fit);
      marked = (
        one.data_type,
        one.own_id,
        one.flags
            ∙ last_flags _ _ _ _ (sent_rest max_frame_size c1 c2 s1 s2 fs rest)
                (empty_or_some max_frame_size fs rest.frames_fit),
        rw one.same_id at rest.marked,
      );
      conn_spent =
          rw total (sym one.conn_spent ∙ ap (λ w. w +ℤ pos n) rest.conn_spent ∙ add_two _ _ _);
      stream_spent =
          rw total (sym one.stream_spent ∙ ap (λ w. w +ℤ pos n) rest.stream_spent ∙ add_two _ _ _);
      within_windows = rw total (windows_add _ _ _ _ one.available_spent win rest.within_windows);
      stops = rest.stops;
      ended =
          rest.ended
          ∙ ended_more (remaining_body_size s) (remaining_body_size s1) (remaining_body_size s2) _ _
              (omega (arith, same_length s1 s2 rest.same_request, rest.forward)) (omega arith)
              one.ended;
    }

-- With frames of one byte or more and fuel for what is left of the body, the loop does not throw,
-- and its DATA frames carry, in order, the part of the body from the old offset to the new one. No
-- frame is empty or exceeds the frame size; together they stay within what both windows allowed, and
-- both windows fall by what was sent. The loop stops only at the body's end or where a window is
-- used up. The frames are DATA frames of the stream, and the last of them has END_STREAM exactly if the
-- body's last byte is sent; no other flag is set, and none on the other frames. The stream counts as
-- ended exactly if it did before or the loop sends the last byte.
pub emit_body-EmitsBody :
    (fuel max_frame_size : ℕ) (conn : OutFlow) (s : Stream)
    → 0 < max_frame_size
    → s.request_body_offset ≤ length s.rqst.body
    → remaining_body_size s ≤ fuel
    → (frames : List DataFrame) × (conn' : OutFlow) × (s' : Stream) × (emit_body fuel max_frame_size
          conn s
        ≡ some (frames, conn', s'))
      × EmitsBody max_frame_size conn s frames conn' s'
unfolding emit_body
emit_body-EmitsBody zero max_frame_size conn s pos_max within enough =
    let (small, left, win) = chunk_bounds max_frame_size conn s in
    ([], conn, s, refl, nothing_more max_frame_size conn s pos_max within (omega arith))
emit_body-EmitsBody (suc fuel) max_frame_size conn s pos_max within enough =
    let n = chunk_size max_frame_size conn s in
    let (small, left, win) = chunk_bounds max_frame_size conn s in
    elim (Bool-cases (n == 0)) [
      | inl t ↦
          ([], conn, s, rw t refl, nothing_more max_frame_size conn s pos_max within (ground arith))
      | inr f ↦
          let some_bytes : 0 < n = ground arith in
          let (frame, c1, s1, runs, one) =
            emit_chunk-EmitsChunk max_frame_size n conn s
              (le_of_pos_part (OutFlow.available (some conn) s.outflow) n some_bytes win) in
          let same = same_length s s1 one.same_request in
          let (frames, c2, s2, more, rest) =
            emit_body-EmitsBody fuel max_frame_size c1 s1 pos_max (omega (arith, one.offset))
              (omega (arith, one.offset)) in
          (
            frame ∷ frames,
            c2,
            s2,
            (rw (f, runs, more) refl),
            one_more max_frame_size n conn c1 c2 s s1 s2 frame frames some_bytes small left win one
                rest,
          )
    ]
