-- ===== src/Protocol/Sound/Defined.antt =====
-- When processSettingFrame (src/http2_protocol.cpp) stays clear of undefined behaviour: its loop
-- erases no stream. The child is about the frame as a whole.
pub mod Frame
use chttp.Prelude.{
  ℕ, ◌==◌, ◌%◌, ltb, ◌≡◌, ◌∙◌, ◌⊎◌, ◌↔◌, refl, List, [], ◌∷◌, none, some, Bool, true, false, not,
  ◌&&◌, ◌||◌, Option, subst, inl, inr, Bool-cases, Option-cases, All, arith, if◌then◌else◌,
}
use chttp.Prelude.Map.{Map, lookup, assign, lookup-assign, lookup-All}
use chttp.Protocol.State.{Http2Protocol, Stream, StepResult, remaining_body_size}
use chttp.Protocol.Emit.{after_body, emit_pending_request_body, is_closed}
use chttp.Protocol.Emit.Body.{emit_body-EmitsBody}
use chttp.Protocol.Fail.{ids_of}
use chttp.Protocol.Receive.Settings.{emit_for, has_stream, emit_iterating}
use chttp.Protocol.Sound.{IsReady, IsSoundStream}
use chttp.Protocol.Sound.Streams.{lookup-IsSoundEntry}
use chttp.Protocol.Sound.Outcome.{kept, LeavesOpen, Stays-runs, split_if}
use chttp.Protocol.Sound.Settings.{emit_for-Stays}

-- The peer has not ended the stream before the request was out.
abbrev pub IsSettled : ℕ × Stream → Type 0
IsSettled (id, s) = (s.remote_end_stream_received ≡ false) ⊎ (s.local_end_stream_sent ≡ true)

eq_iff : (a b : ℕ) → (a == b ≡ true) ↔ (a ≡ b)
eq_iff a b = ground arith

assign-IsSettled :
    (id : ℕ) (s : Stream) (m : Map ℕ Stream)
    → IsSettled (id, s)
    → All IsSettled m
    → All IsSettled (assign ◌==◌ id s m)
unfolding assign
assign-IsSettled id s [] h all = (h, tt)
assign-IsSettled id s ((j, w) ∷ m) h (one, all) = elim (Bool-cases (j == id)) [
  | inl t ↦ rw t (h, all)
  | inr f ↦ rw f (one, assign-IsSettled id s m h all)
]

has_stream-assign :
    (p p' : Http2Protocol) (id j : ℕ) (s : Stream)
    → p'.streams ≡ assign ◌==◌ id s p.streams
    → has_stream p j ≡ true
    → has_stream p' j ≡ true
unfolding has_stream
has_stream-assign p p' id j s e h =
    rw (e, has_stream, lookup-assign ◌==◌ eq_iff id j s p.streams)
      (elim (Bool-cases (id == j)) [
        | inl t ↦ rw (t, has_stream) refl
        | inr f ↦ rw (f, has_stream) h
      ])

-- A round of the loop erases no stream and leaves the streams settled.
record Settles (p : Http2Protocol) (step : StepResult × Http2Protocol) : Type 0 where
  settled : All IsSettled (step.1).streams
  still_there : (j : ℕ) → has_stream p j ≡ true → has_stream (step.1) j ≡ true
  same_undefined : (step.1).undefined_behavior ≡ p.undefined_behavior

after_body-Settles :
    (p : Http2Protocol) (s : Stream) (result : StepResult)
    → All IsSettled p.streams
    → s.remote_end_stream_received ≡ false
    → Settles p (after_body p s result)
unfolding after_body
after_body-Settles p s result all not_ended =
    split_if (Settles p) (not s.local_end_stream_sent)
      (λ _. record {
        settled = assign-IsSettled s.stream_id s p.streams (inl not_ended) all;
        still_there = λ j. has_stream-assign p _ s.stream_id j s refl;
        same_undefined = refl;
      })
      (λ _.
        split_if (Settles p) s.remote_end_stream_received (λ t. absurd (ground (arith, not_ended)))
          (λ _. record {
            settled = assign-IsSettled s.stream_id _ p.streams (inl not_ended) all;
            still_there = λ j. has_stream-assign p _ s.stream_id j _ refl;
            same_undefined = refl;
          }))

-- A round's step, whatever it is.
Rounds : Http2Protocol → Option (StepResult × Http2Protocol) → Type 0
Rounds p none = Unit
Rounds p (some step) = Settles p step

nothing_sent-Settles :
    (p : Http2Protocol) (result : StepResult) → All IsSettled p.streams → Settles p (result, p)
nothing_sent-Settles p result all = record {
  settled = all;
  still_there = λ j h. h;
  same_undefined = refl;
}

emit_pending_request_body-Rounds :
    (p : Http2Protocol) (s : Stream) (result : StepResult)
    → IsReady p
    → IsSoundStream p.next_stream_id s
    → IsSettled (s.stream_id, s)
    → All IsSettled p.streams
    → Rounds p (emit_pending_request_body p s result)
unfolding emit_pending_request_body Rounds has_stream
emit_pending_request_body-Rounds p s result (h, (low, high), live) (within, _, _) one all =
    let (frames, conn, s', runs, e) =
      emit_body-EmitsBody (remaining_body_size s) p.max_frame_size p.connection_out_flow s
        (omega arith) within (omega arith) in
    let p' : Http2Protocol = record p { connection_out_flow = conn } in
    split_if (Rounds p) (s.local_end_stream_sent || is_closed s.stream_state)
      (λ _. nothing_sent-Settles p result all)
      (λ f.
        let not_ended : s.remote_end_stream_received ≡ false = elim one [
          | inl r ↦ r
          | inr sent ↦ absurd (ground (arith, sent, f))
        ] in
        let step = after_body-Settles p' s' _ all (e.same_remote ∙ not_ended) in
        rw runs (record {
          settled = step.settled;
          still_there = step.still_there;
          same_undefined = step.same_undefined;
        }))

emit_for-Rounds :
    (p : Http2Protocol) (id : ℕ) (result : StepResult)
    → IsReady p
    → All IsSettled p.streams
    → Rounds p (emit_for p id result)
unfolding emit_for Rounds
emit_for-Rounds p id result ready all = elim (Option-cases (lookup ◌==◌ id p.streams)) [
  | inl e ↦ rw (e, emit_for) (nothing_sent-Settles p result all)
  | inr (s, e) ↦
      let (same, sound) = lookup-IsSoundEntry p.next_stream_id id s p.streams ready.0 e in
      rw (e, emit_for)
        (emit_pending_request_body-Rounds p s result ready sound
          (lookup-All ◌==◌ eq_iff IsSettled id s p.streams all e) all)
]

-- The step of a round, and that it is one.
emit_for-Settles :
    (p : Http2Protocol) (id : ℕ) (result : StepResult)
    → IsReady p
    → All IsSettled p.streams
    → (step : StepResult × Http2Protocol) × (emit_for p id result ≡ some step)
      × IsReady step.1
      × Settles p step
unfolding Rounds
emit_for-Settles p id result ready all =
    let (step, runs, left) =
      Stays-runs (kept p) (emit_for p id result) (emit_for-Stays p id result ready) in
    (step, runs, left.ready, subst (Rounds p) runs (emit_for-Rounds p id result ready all))

All_still_there :
    (p p' : Http2Protocol) (ids : List ℕ)
    → ((j : ℕ) → has_stream p j ≡ true → has_stream p' j ≡ true)
    → All (λ id. has_stream p id ≡ true) ids
    → All (λ id. has_stream p' id ≡ true) ids
All_still_there p p' [] keep h = tt
All_still_there p p' (id ∷ ids) keep (one, h) = (keep id one, All_still_there p p' ids keep h)

pub emit_iterating_defined :
    (ids : List ℕ) (result : StepResult) (p : Http2Protocol)
    → IsReady p
    → All IsSettled p.streams
    → All (λ id. has_stream p id ≡ true) ids
    → (step : StepResult × Http2Protocol) × (emit_iterating ids result p ≡ some step)
      × (step.1.undefined_behavior ≡ p.undefined_behavior)
unfolding emit_iterating
emit_iterating_defined [] result p ready all there = ((result, p), refl, refl)
emit_iterating_defined (id ∷ ids) result p ready all (one, there) =
    let ((result', p'), runs, ready', s) = emit_for-Settles p id result ready all in
    let (step, rest, same) =
      emit_iterating_defined ids result' p' ready' s.settled
        (All_still_there p p' ids s.still_there there) in
    (step, rw (runs, s.still_there id one) rest, same ∙ s.same_undefined)

-- The keys of a map are in it.
abbrev Found : Map ℕ Stream → ℕ → Type 0
Found m id = (s : Stream) × (lookup ◌==◌ id m ≡ some s)

Found-later : (k id : ℕ) (w : Stream) (m : Map ℕ Stream) → Found m id → Found ((k, w) ∷ m) id
unfolding lookup
Found-later k id w m (s, e) = elim (Bool-cases (k == id)) [
  | inl t ↦ (w, rw t refl)
  | inr f ↦ (s, rw f e)
]

Found-later_all :
    (k : ℕ) (w : Stream) (m : Map ℕ Stream) (ids : List ℕ)
    → All (Found m) ids
    → All (Found ((k, w) ∷ m)) ids
Found-later_all k w m [] h = tt
Found-later_all k w m (id ∷ ids) (one, h) = (Found-later k id w m one, Found-later_all k w m ids h)

pub ids-Found : (m : Map ℕ Stream) → All (Found m) (ids_of m)
unfolding lookup
ids-Found [] = tt
ids-Found ((k, w) ∷ m) = ((w, ground arith), Found-later_all k w m (ids_of m) (ids-Found m))

pub Found-has_stream :
    (p : Http2Protocol) (ids : List ℕ)
    → All (Found p.streams) ids
    → All (λ id. has_stream p id ≡ true) ids
unfolding has_stream
Found-has_stream p [] h = tt
Found-has_stream p (id ∷ ids) ((s, e), h) = (rw (e, has_stream) refl, Found-has_stream p ids h)
