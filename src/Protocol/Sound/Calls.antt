-- ===== src/Protocol/Sound/Calls.antt =====
-- The calls of the owner of an Http2Protocol (include/chttp2/http2_protocol.hpp), in any order.
use chttp.Prelude.{
  ℕ, ◌≡◌, refl, ap, List, [], ◌∷◌, some, true, not, ◌||◌, inl, inr, Bool-cases, if◌then◌else◌,
  arith,
}
use chttp.Hpack.HuffmanCoder.{HuffmanCoder}
use chttp.Protocol.Constants.{ErrorCode, cancel}
use chttp.Protocol.State.{Http2Protocol, StepResult, no_result}
use chttp.Protocol.Fail.{fail_all_streams, ids_of}
use chttp.Protocol.Fail.Closing.{fail_all_streams-Fails}
use chttp.Protocol.Control.{start, cancel_stream, send_ping, close, on_transport_closed}
use chttp.Protocol.Lifecycle.{reset, ClientConfig, configured}
use chttp.Protocol.Calls.{
  Call, call_start, call_submit_request, call_cancel_stream, call_send_ping, call_receive_bytes,
  call_close, call_on_transport_closed, call_reset, perform, perform_all,
}
use chttp.Protocol.Sound.{IsSoundMap, IsLegalSize, IsSound, OrUndefined, or_undefined}
use chttp.Protocol.Sound.Outcome.{kept, split_if, fail_each-Carries, fail_stream-Leaves}
use chttp.Protocol.Sound.Receive.{receive_bytes_runs}
use chttp.Protocol.Sound.Submit.{submit_request-IsSound}

-- A step that leaves a sound state with the same next id.
pub record Sound (next : ℕ) (step : StepResult × Http2Protocol) : Type 0 where
  pub sound : IsSound (step.1)
  pub same_next : (step.1).next_stream_id ≡ next

pub start-Sound : (p : Http2Protocol) → IsSound p → Sound p.next_stream_id (start p)
unfolding start
start-Sound p h =
    split_if (Sound p.next_stream_id) p.started (λ _. record { sound = h; same_next = refl })
      (λ _. record { sound = h; same_next = refl })

pub cancel_stream-Sound :
    (p : Http2Protocol) (id : ℕ) (code : ErrorCode)
    → IsSound p
    → Sound p.next_stream_id (cancel_stream p id code)
unfolding cancel_stream
cancel_stream-Sound p id code (h, l, empty_or) =
    split_if (Sound p.next_stream_id) p.closed
      (λ _. record { sound = (h, l, empty_or); same_next = refl })
      (λ live.
        let failing = fail_stream-Leaves p id code true (h, l, live) in
        record { sound = failing.sound; same_next = ap (λ k. k.1) failing.same_kept })

pub send_ping-Sound : (p : Http2Protocol) → IsSound p → Sound p.next_stream_id (send_ping p)
unfolding send_ping
send_ping-Sound p h =
    split_if (Sound p.next_stream_id) (p.closed || not p.started)
      (λ _. record { sound = h; same_next = refl }) (λ _. record { sound = h; same_next = refl })

-- A step that leaves no stream, so that the connection may be closed.
record Empties (next : ℕ) (step : StepResult × Http2Protocol) : Type 0 where
  sound_streams : IsSoundMap (step.1).next_stream_id (step.1).streams
  legal_size : IsLegalSize (step.1).max_frame_size
  no_streams : (step.1).streams ≡ []
  same_next : (step.1).next_stream_id ≡ next

fail_all_streams-Empties :
    (p : Http2Protocol) (code : ErrorCode) (result : StepResult)
    → IsSoundMap p.next_stream_id p.streams
    → IsLegalSize p.max_frame_size
    → Empties p.next_stream_id (fail_all_streams p code result)
unfolding fail_all_streams
fail_all_streams-Empties p code result h l =
    let (h', l', same) = fail_each-Carries (kept p) code (ids_of p.streams) result p (h, l, refl) in
    record {
      sound_streams = h';
      legal_size = l';
      no_streams = (fail_all_streams-Fails p code result h.0).none_left;
      same_next = ap (λ k. k.1) same;
    }

emptied_closed :
    (p : Http2Protocol) (code : ErrorCode) (result r : StepResult)
    → IsSoundMap p.next_stream_id p.streams
    → IsLegalSize p.max_frame_size
    → Sound p.next_stream_id (r, record (fail_all_streams p code result).1 { closed = true })
emptied_closed p code result r h l =
    let e = fail_all_streams-Empties p code result h l in
    record { sound = (e.sound_streams, e.legal_size, inr e.no_streams); same_next = e.same_next }

pub close-Sound : (p : Http2Protocol) → IsSound p → Sound p.next_stream_id (close p)
unfolding close
close-Sound p (h, l, empty_or) =
    split_if (Sound p.next_stream_id) p.closed
      (λ _. record { sound = (h, l, empty_or); same_next = refl })
      (λ live. elim (Bool-cases (not p.sent_goaway)) [
        | inl t ↦ rw t (emptied_closed (record p { sent_goaway = true }) cancel _ _ h l)
        | inr f ↦ rw f (emptied_closed p cancel _ _ h l)
      ])

pub on_transport_closed-Sound :
    (p : Http2Protocol) → IsSound p → Sound p.next_stream_id (on_transport_closed p)
unfolding on_transport_closed
on_transport_closed-Sound p (h, l, empty_or) =
    let p' : Http2Protocol = record p { transport_closed = true } in
    let emptied : Empties p.next_stream_id
        (if not p.closed then fail_all_streams p' cancel no_result else (no_result, p')) =
      split_if (Empties p.next_stream_id) (not p.closed)
        (λ _. fail_all_streams-Empties p' cancel no_result h l)
        (λ e. record {
          sound_streams = h;
          legal_size = l;
          no_streams = elim empty_or [
            | inl live ↦ absurd (ground arith)
            | inr none_left ↦ none_left
          ];
          same_next = refl;
        }) in
    record {
      sound = (emptied.sound_streams, emptied.legal_size, inr emptied.no_streams);
      same_next = emptied.same_next;
    }

reset-IsSound : (p : Http2Protocol) → IsSound (reset p)
unfolding reset
reset-IsSound p = ((tt, tt), (omega arith, omega arith), inl refl)

pub configured-IsSound : (config : ClientConfig) → IsSound (configured config)
unfolding configured
configured-IsSound config = ((tt, tt), (omega arith, omega arith), inl refl)

module _ (huffman : HuffmanCoder) where
  -- In the model every call of the owner from a sound state returns and leaves a sound state, where
  -- the behaviour is undefined, too.
  pub perform-IsSound :
      (p : Http2Protocol) (call : Call)
      → IsSound p
      → (step : StepResult × Http2Protocol) × (perform huffman p call ≡ some step) × IsSound step.1
  unfolding perform
  perform-IsSound p call_start h = (start p, refl, (start-Sound p h).sound)
  perform-IsSound p (call_submit_request request) h = submit_request-IsSound huffman p request h
  perform-IsSound p (call_cancel_stream id code) h =
      (cancel_stream p id code, refl, (cancel_stream-Sound p id code h).sound)
  perform-IsSound p call_send_ping h = (send_ping p, refl, (send_ping-Sound p h).sound)
  perform-IsSound p (call_receive_bytes bytes) h =
      let (step, runs, r) = receive_bytes_runs huffman p bytes h in (step, runs, r.sound)
  perform-IsSound p call_close h = (close p, refl, (close-Sound p h).sound)
  perform-IsSound p call_on_transport_closed h =
      (on_transport_closed p, refl, (on_transport_closed-Sound p h).sound)
  perform-IsSound p call_reset h = ((no_result, reset p), refl, reset-IsSound p)

  perform_all-IsSound :
      (calls : List Call) (p : Http2Protocol)
      → IsSound p
      → (out : List StepResult × Http2Protocol) × (perform_all huffman p calls ≡ some out)
        × IsSound out.1
  unfolding perform_all
  perform_all-IsSound [] p h = (([], p), refl, h)
  perform_all-IsSound (call ∷ calls) p h =
      let ((result, p'), runs, h') = perform-IsSound p call h in
      let ((results, p''), more, h'') = perform_all-IsSound calls p' h' in
      elim (Bool-cases p'.undefined_behavior) [
        | inl t ↦ ((result ∷ [], p'), rw (runs, t) refl, h')
        | inr f ↦ ((result ∷ results, p''), rw (runs, f, more) refl, h'')
      ]

  -- A sequence of calls of a new connection with any configuration, whatever the bytes are that it
  -- receives and the requests that it is given, comes to behaviour that C++ leaves undefined (in
  -- the settings of the peer), or no call throws, each returns, and the state is sound afterwards.
  pub perform_all-configured :
      (config : ClientConfig) (calls : List Call)
      → (out : List StepResult × Http2Protocol) × (perform_all huffman (configured config) calls
          ≡ some out)
        × OrUndefined out.1 (IsSound out.1)
  perform_all-configured config calls =
      let (out, runs, h) =
        perform_all-IsSound calls (configured config) (configured-IsSound config) in
      (out, runs, or_undefined out.1 h)
