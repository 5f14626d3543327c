-- ===== src/Protocol/Submit/Ids.antt =====
-- What submitRequest does to the ids and to the other streams (src/http2_protocol.cpp).
use chttp.Prelude.{
  ℕ, ◌+◌, ◌≤◌, ◌<◌, ◌≡◌, ◌≢◌, ◌==◌, ◌↔◌, refl, ◌∙◌, List, Option, none, some, Bool, true, false,
  ◌||◌, inl, inr, Bool-cases, Option-cases, if◌then◌else◌, arith, length, ◌++◌, map,
}
use chttp.Prelude.Map.{Map, lookup, assign, erase, lookup-assign, lookup-erase}
use chttp.Hpack.HuffmanCoder.{HuffmanCoder}
use chttp.Frame.DataFrame
use chttp.Hpack.Codec.{Hpack, encode}
use chttp.Protocol.Constants.{ErrorCode, state_open, state_half_closed_local}
use chttp.Protocol.State.{
  Http2Protocol, Stream, Request, StepResult, no_result, append_event, stream_opened,
  response_failed, set_request, remaining_body_size,
}
use chttp.Protocol.Emit.{emit_request_headers, emit_pending_request_body, after_body, is_closed}
use chttp.Protocol.Emit.Body.{emit_body-EmitsBody}
use chttp.Protocol.Emit.Block.{emit_request_headers-SplitsBlock}
use chttp.Protocol.Submit.{
  refusal, build_request_header_fields, open_stream, submit_accepted, submit_request,
}

eq_iff : (a b : ℕ) → (a == b ≡ true) ↔ (a ≡ b)
eq_iff a b = ground arith

-- Going from `p` to `p'` keeps the next id and every stream but `id`.
record TouchesOnly (id : ℕ) (p p' : Http2Protocol) : Type 0 where
  same_next : p'.next_stream_id ≡ p.next_stream_id
  same_others : (j : ℕ) → j ≢ id → lookup ◌==◌ j p'.streams ≡ lookup ◌==◌ j p.streams

assign_other :
    (id j : ℕ) (s : Stream) (m : Map ℕ Stream)
    → j ≢ id
    → lookup ◌==◌ j (assign ◌==◌ id s m) ≡ lookup ◌==◌ j m
assign_other id j s m ne = ground (arith, lookup-assign ◌==◌ eq_iff id j s m)

erase_other :
    (id j : ℕ) (m : Map ℕ Stream) → j ≢ id → lookup ◌==◌ j (erase ◌==◌ id m) ≡ lookup ◌==◌ j m
erase_other id j m ne = ground (arith, lookup-erase ◌==◌ eq_iff id j m)

after_body-TouchesOnly :
    (p : Http2Protocol) (s : Stream) (r : StepResult)
    → TouchesOnly s.stream_id p (after_body p s r).1
unfolding after_body
after_body-TouchesOnly p s r = elim (Bool-cases s.local_end_stream_sent) [
  | inr f ↦
      rw f (record {
        same_next = refl;
        same_others = λ j ne. assign_other s.stream_id j _ p.streams ne;
      })
  | inl t ↦ rw t (elim (Bool-cases s.remote_end_stream_received) [
    | inl e ↦
        rw e (record {
          same_next = refl;
          same_others = λ j ne. erase_other s.stream_id j p.streams ne;
        })
    | inr e ↦ rw e (record {
      same_next = refl;
      same_others = λ j ne. assign_other s.stream_id j _ p.streams ne;
    })
  ])
]

emit_pending_request_body-TouchesOnly :
    (p : Http2Protocol) (s : Stream) (r : StepResult)
    → 0 < p.max_frame_size
    → s.request_body_offset ≤ length s.rqst.body
    → (r' : StepResult) × (p' : Http2Protocol) × (emit_pending_request_body p s r ≡ some (r', p'))
      × TouchesOnly s.stream_id p p'
unfolding emit_pending_request_body
emit_pending_request_body-TouchesOnly p s r pos_max within =
    elim (Bool-cases (s.local_end_stream_sent || is_closed s.stream_state)) [
      | inl t ↦ (r, p, rw t refl, record { same_next = refl; same_others = λ j ne. refl })
      | inr f ↦
          let (frames, conn, s', runs, e) =
            emit_body-EmitsBody (remaining_body_size s) p.max_frame_size p.connection_out_flow s
              pos_max within (omega arith) in
          let p1 : Http2Protocol = record p { connection_out_flow = conn } in
          let r1 : StepResult = record r {
            outbound = r.outbound ++ map DataFrame.to_bytes frames;
          } in
          let touches = after_body-TouchesOnly p1 s' r1 in
          (
            (after_body p1 s' r1).0,
            (after_body p1 s' r1).1,
            rw (f, runs) refl,
            record {
              same_next = touches.same_next;
              same_others = λ j ne. touches.same_others j (rw e.same_id ne);
            },
          )
    ]

abbrev pub is_none : Option ErrorCode → Bool
is_none none = true
is_none (some code) = false

pub open_stream-offset :
    (p : Http2Protocol) (r : Request) → (open_stream p r).request_body_offset ≡ 0
unfolding open_stream set_request
open_stream-offset p r = refl

pub open_stream-id :
    (p : Http2Protocol) (r : Request) → (open_stream p r).stream_id ≡ p.next_stream_id
unfolding open_stream set_request
open_stream-id p r = refl

-- What a request that is submitted does to the ids: `out` is the result and the state after it.
pub record Submits (p : Http2Protocol) (request : Request) (j : ℕ)
    (out : StepResult × Http2Protocol) : Type 0 where
  pub accepted : (out.0).has_submitted_stream ≡ is_none (refusal p request)
  pub id :
      (out.0).submitted_stream_id ≡ (if is_none (refusal p request) then p.next_stream_id else 0)
  pub next_id :
      (out.1).next_stream_id
      ≡ (if is_none (refusal p request) then p.next_stream_id + 2 else p.next_stream_id)
  pub same_other : lookup ◌==◌ j (out.1).streams ≡ lookup ◌==◌ j p.streams

-- The stream once its header block is out, and the state with it.
abbrev pub begun : Stream → Stream
begun s = record s {
  request_started = true;
  stream_state = (if s.local_end_stream_sent then state_half_closed_local else state_open);
}

abbrev pub with_stream : Http2Protocol → Hpack → Stream → Http2Protocol
with_stream p hpack s = record p {
  next_stream_id = p.next_stream_id + 2;
  hpack = hpack;
  streams = assign ◌==◌ p.next_stream_id s p.streams;
}

abbrev pub opened : Http2Protocol → StepResult
opened p = append_event no_result (stream_opened p.next_stream_id)

abbrev pub numbered : StepResult → ℕ → StepResult
numbered r id = record r { has_submitted_stream = true; submitted_stream_id = id }

module _ (huffman : HuffmanCoder) where
  abbrev pub encoding : Http2Protocol → Request → List ℕ × Hpack
  encoding p request = encode huffman p.hpack (build_request_header_fields request.headers)

  pub submit_request_refused :
      (p : Http2Protocol) (request : Request) (code : ErrorCode)
      → refusal p request ≡ some code
      → submit_request huffman p request ≡ some (append_event no_result (response_failed 0 code), p)
  unfolding submit_request
  submit_request_refused p request code e = rw (e, submit_request) refl

  pub submit_request_accepted :
      (p : Http2Protocol) (request : Request) (r1 r2 : StepResult) (s1 : Stream)
      (p2 : Http2Protocol)
      → refusal p request ≡ none
      → emit_request_headers p.max_frame_size
          (open_stream p request)
          (encoding p request).0
          (opened p)
        ≡ some (r1, s1)
      → emit_pending_request_body (with_stream p (encoding p request).1 (begun s1)) (begun s1) r1
        ≡ some (r2, p2)
      → submit_request huffman p request ≡ some (numbered r2 p.next_stream_id, p2)
  unfolding submit_request submit_accepted
  submit_request_accepted p request r1 r2 s1 p2 e runs more =
      rw (e, submit_request) (rw (runs, submit_accepted) (rw more refl))

  Submits-accepted :
      (p : Http2Protocol) (request : Request) (hpack : Hpack) (r2 : StepResult) (s : Stream)
      (p2 : Http2Protocol) (j : ℕ)
      → j ≢ p.next_stream_id
      → refusal p request ≡ none
      → s.stream_id ≡ p.next_stream_id
      → TouchesOnly s.stream_id (with_stream p hpack s) p2
      → Submits p request j (numbered r2 p.next_stream_id, p2)
  Submits-accepted p request hpack r2 s p2 j ne e id t = record {
    accepted = rw e refl;
    id = rw e refl;
    next_id = rw e t.same_next;
    same_other = t.same_others j (rw id ne) ∙ assign_other p.next_stream_id j s p.streams ne;
  }

  Submits-refused :
      (p : Http2Protocol) (request : Request) (j : ℕ) (code : ErrorCode)
      → refusal p request ≡ some code
      → Submits p request j (append_event no_result (response_failed 0 code), p)
  Submits-refused p request j code e = record {
    accepted = rw e refl;
    id = rw e refl;
    next_id = rw e refl;
    same_other = refl;
  }

  -- If the peer's frames may have a byte, submitRequest never throws and always ends. It gives a
  -- stream's id exactly if nothing refuses the request; the id is the next one, which then grows by
  -- two, and no stream `j` with another id is touched.
  pub submit_request-Submits :
      (p : Http2Protocol) (request : Request) (j : ℕ)
      → 0 < p.max_frame_size
      → j ≢ p.next_stream_id
      → (out : StepResult × Http2Protocol) × (submit_request huffman p request ≡ some out)
        × Submits p request j out
  submit_request-Submits p request j pos_max ne = elim (Option-cases (refusal p request)) [
    | inr (code, e) ↦
        (_, submit_request_refused p request code e, Submits-refused p request j code e)
    | inl e ↦
        let s = open_stream p request in
        let (first, frames, s1, runs, b) =
          emit_request_headers-SplitsBlock p.max_frame_size s (encoding p request).0 (opened p)
            pos_max in
        let hpack = (encoding p request).1 in
        let (r2, p2, more, t) =
          emit_pending_request_body-TouchesOnly (with_stream p hpack (begun s1)) (begun s1) _
            pos_max (rw (b.same_offset, open_stream-offset p request) (omega arith)) in
        (
          _,
          submit_request_accepted p request _ r2 s1 p2 e runs more,
          Submits-accepted p request hpack r2 (begun s1) p2 j ne e
              (b.same_id ∙ open_stream-id p request) t,
        )
  ]
