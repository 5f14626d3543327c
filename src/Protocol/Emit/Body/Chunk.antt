-- ===== src/Protocol/Emit/Body/Chunk.antt =====
-- One round of the loop of emitPendingRequestBody (src/http2_protocol.cpp): the size of its DATA
-- frame, the frame, and what it takes from the windows.
use chttp.Prelude.{
  ℕ, ◌+◌, ◌≤◌, ◌<◌, ◌≡◌, ◌==◌, ◌⊎◌, refl, List, some, Bool, true, false, ◌||◌, if◌then◌else◌,
  length, take, drop, length-take, length-drop, arith,
}
use chttp.Prelude.Int.{ℤ, pos, pos_part, ◌+ℤ◌, ◌≤ℤ◌}
use chttp.Flow.Send.{available-take}
use chttp.Flow.OutFlow
use chttp.Flow.OutFlow.{OutFlow}
use chttp.Frame.Header.{FrameHeader, set_flag, header_for, frame_data, flag_end_stream}
use chttp.Frame.DataFrame.{DataFrame}
use chttp.Protocol.State.{Stream, remaining_body_size}
use chttp.Protocol.Emit.{chunk_size, spend, emit_chunk}

pub le_of_pos_part : (a : ℤ) (n : ℕ) → 0 < n → n ≤ pos_part a → pos n ≤ℤ a
le_of_pos_part a n p h = ground arith

flagged_length :
    (b : Bool) (h : FrameHeader) (flag : ℕ)
    → (if b then set_flag h flag else h).payload_length ≡ h.payload_length
unfolding set_flag
flagged_length b h flag = ground arith

flagged_type :
    (b : Bool) (h : FrameHeader) (flag : ℕ) → (if b then set_flag h flag else h).type ≡ h.type
unfolding set_flag
flagged_type b h flag = ground arith

flagged_id :
    (b : Bool) (h : FrameHeader) (flag : ℕ)
    → (if b then set_flag h flag else h).stream_id ≡ h.stream_id
unfolding set_flag
flagged_id b h flag = ground arith

flagged_flags :
    (b : Bool) (n id : ℕ)
    → (let h : FrameHeader = record (header_for frame_data id) { payload_length = n } in
        (if b then set_flag h flag_end_stream else h).flags)
      ≡ (if b then flag_end_stream else 0)
unfolding set_flag
flagged_flags true n id = refl
flagged_flags false n id = refl

-- What one round gives.
pub record EmitsChunk (n : ℕ) (conn : OutFlow) (s : Stream) (f : DataFrame) (conn' : OutFlow)
    (s' : Stream) : Type 0 where
  pub same_request : s'.rqst ≡ s.rqst
  pub same_id : s'.stream_id ≡ s.stream_id
  pub same_response : s'.resp ≡ s.resp
  pub same_remote : s'.remote_end_stream_received ≡ s.remote_end_stream_received
  pub offset : s'.request_body_offset ≡ s.request_body_offset + n
  pub bytes : f.body ≡ take n (drop s.request_body_offset s.rqst.body)
  pub payload : f.header.payload_length ≡ n
  pub data_type : f.header.type ≡ frame_data
  pub own_id : f.header.stream_id ≡ s.stream_id
  pub flags : f.header.flags ≡ (if remaining_body_size s' == 0 then flag_end_stream else 0)
  pub conn_spent : conn'.window +ℤ pos n ≡ conn.window
  pub stream_spent : s'.outflow.window +ℤ pos n ≡ s.outflow.window
  pub available_spent :
      OutFlow.available (some conn') s'.outflow +ℤ pos n ≡ OutFlow.available (some conn) s.outflow
  pub ended : s'.local_end_stream_sent ≡ (remaining_body_size s' == 0) || s.local_end_stream_sent

pub emit_chunk-EmitsChunk :
    (max_frame_size n : ℕ) (conn : OutFlow) (s : Stream)
    → pos n ≤ℤ OutFlow.available (some conn) s.outflow
    → (f : DataFrame) × (conn' : OutFlow) × (s' : Stream) × (emit_chunk max_frame_size n conn s
        ≡ some (f, conn', s'))
      × EmitsChunk n conn s f conn' s'
unfolding emit_chunk spend
emit_chunk-EmitsChunk max_frame_size n conn s h =
    let (conn', f', runs, c, w, a) = available-take conn s.outflow n h in
    rw runs (
      _,
      _,
      _,
      refl,
      record {
        same_request = refl;
        same_id = refl;
        same_response = refl;
        same_remote = refl;
        offset = refl;
        bytes = refl;
        payload = flagged_length _ _ _;
        data_type = flagged_type _ _ _;
        own_id = flagged_id _ _ _;
        flags = flagged_flags _ _ _;
        conn_spent = c;
        stream_spent = w;
        available_spent = a;
        ended = refl;
      },
    )

pub chunk_bounds :
    (max_frame_size : ℕ) (conn : OutFlow) (s : Stream)
    → (chunk_size max_frame_size conn s ≤ max_frame_size)
      × (chunk_size max_frame_size conn s ≤ remaining_body_size s)
      × (chunk_size max_frame_size conn s ≤ pos_part (OutFlow.available (some conn) s.outflow))
unfolding chunk_size
chunk_bounds max_frame_size conn s = ground arith

pub chunk_zero :
    (max_frame_size : ℕ) (conn : OutFlow) (s : Stream)
    → 0 < max_frame_size
    → chunk_size max_frame_size conn s ≡ 0
    → (remaining_body_size s ≡ 0) ⊎ (pos_part (OutFlow.available (some conn) s.outflow) ≡ 0)
unfolding chunk_size
chunk_zero max_frame_size conn s h e = ground arith

pub chunk_length :
    (n : ℕ) (s : Stream) (bytes : List ℕ)
    → n ≤ remaining_body_size s
    → bytes ≡ take n (drop s.request_body_offset s.rqst.body)
    → length bytes ≡ n
chunk_length n s bytes h e = rw e (
    omega (
      arith,
      length-take n (drop s.request_body_offset s.rqst.body),
      length-drop s.request_body_offset s.rqst.body,
    ))
