-- ===== src/Protocol/Fail/Closing.antt =====
-- What is left after failStream, failAllStreams and failConnection (src/http2_protocol.cpp).
use chttp.Prelude.{
  ℕ, ◌==◌, ◌≡◌, ◌≢◌, refl, sym, ◌∙◌, List, [], ◌∷◌, ◌++◌, append_assoc, append-nil, some, true,
  false, not, ◌&&◌, inl, inr, Bool-cases, if◌then◌else◌, All, arith,
}
use chttp.Prelude.Map.{Map, lookup, erase}
use chttp.Protocol.Constants.{ErrorCode}
use chttp.Protocol.State.{
  Http2Protocol, Stream, StepResult, ProtocolEvent, merge_step_result, stream_closed,
  response_failed, connection_error, connection_closed, goaway_sent,
}
use chttp.Protocol.Fail.{fail_stream, fail_each, ids_of, fail_all_streams, fail_connection}

-- The keys of a map stand in it once.
abbrev pub Distinct : Map ℕ Stream → Type 0
Distinct [] = Unit
Distinct ((id, s) ∷ streams) = All (λ k. k ≢ id) (ids_of streams) × Distinct streams

erase_absent : (id : ℕ) (m : Map ℕ Stream) → All (λ k. k ≢ id) (ids_of m) → erase ◌==◌ id m ≡ m
unfolding erase
erase_absent id [] h = refl
erase_absent id ((k, s) ∷ m) (ne, h) = ground (arith, erase_absent id m h)

-- What failing every stream announces.
unfoldable pub failures : ErrorCode → Map ℕ Stream → List ProtocolEvent
failures code [] = []
failures code ((id, s) ∷ streams) =
    stream_closed id code ∷ response_failed id code ∷ failures code streams

-- `failing` fails the streams of `p` and adds to `result`.
pub record Fails (p : Http2Protocol) (code : ErrorCode) (result : StepResult)
    (failing : StepResult × Http2Protocol) : Type 0 where
  pub none_left : failing.1.streams ≡ []
  pub announced : failing.0.events ≡ result.events ++ failures code p.streams
  pub nothing_sent : failing.0.outbound ≡ result.outbound
  pub same_closed : failing.1.closed ≡ p.closed
  pub same_error : failing.1.connection_error_code ≡ p.connection_error_code

record FailsOne (p : Http2Protocol) (id : ℕ) (code : ErrorCode)
    (failing : StepResult × Http2Protocol) : Type 0 where
  left : failing.1.streams ≡ erase ◌==◌ id p.streams
  announced : failing.0.events ≡ stream_closed id code ∷ response_failed id code ∷ []
  nothing_sent : failing.0.outbound ≡ []
  same_closed : failing.1.closed ≡ p.closed
  same_error : failing.1.connection_error_code ≡ p.connection_error_code

fail_stream_found :
    (p : Http2Protocol) (id : ℕ) (s : Stream) (code : ErrorCode)
    → lookup ◌==◌ id p.streams ≡ some s
    → FailsOne p id code (fail_stream p id code false)
unfolding fail_stream
fail_stream_found p id s code e =
    rw (e, fail_stream)
      (record {
        left = refl;
        announced = refl;
        nothing_sent = refl;
        same_closed = refl;
        same_error = refl;
      })

lookup_first : (id : ℕ) (s : Stream) (m : Map ℕ Stream) → lookup ◌==◌ id ((id, s) ∷ m) ≡ some s
unfolding lookup
lookup_first id s m = ground arith

erase_first :
    (id : ℕ) (s : Stream) (m : Map ℕ Stream)
    → All (λ k. k ≢ id) (ids_of m)
    → erase ◌==◌ id ((id, s) ∷ m) ≡ m
unfolding erase
erase_first id s m h = ground (arith, erase_absent id m h)

fail_each_all :
    (m : Map ℕ Stream) (p : Http2Protocol) (code : ErrorCode) (result : StepResult)
    → p.streams ≡ m
    → Distinct m
    → Fails p code result (fail_each code (ids_of m) result p)
unfolding fail_each failures merge_step_result
fail_each_all [] p code result e d = record {
  none_left = e;
  announced = rw e (sym (append-nil result.events));
  nothing_sent = refl;
  same_closed = refl;
  same_error = refl;
}
fail_each_all ((id, s) ∷ m) p code result e (fresh, d) =
    let one = fail_stream_found p id s code (rw e (lookup_first id s m)) in
    let failing = fail_stream p id code false in
    let left : failing.1.streams ≡ m = one.left ∙ rw e (erase_first id s m fresh) in
    let rest = fail_each_all m failing.1 code (merge_step_result result failing.0) left d in
    record {
      none_left = rest.none_left;
      announced = rest.announced ∙ rw (one.announced, left, e) (append_assoc result.events _ _);
      nothing_sent = rest.nothing_sent ∙ rw one.nothing_sent (append-nil result.outbound);
      same_closed = rest.same_closed ∙ one.same_closed;
      same_error = rest.same_error ∙ one.same_error;
    }

pub fail_all_streams-Fails :
    (p : Http2Protocol) (code : ErrorCode) (result : StepResult)
    → Distinct p.streams
    → Fails p code result (fail_all_streams p code result)
unfolding fail_all_streams
fail_all_streams-Fails p code result d = fail_each_all p.streams p code result refl d

-- The events of failConnection, in their order.
abbrev pub connection_events : Http2Protocol → ErrorCode → List ℕ → List ProtocolEvent
connection_events p code debug_data =
    (if not p.sent_goaway && not p.transport_closed
      then goaway_sent p.last_peer_stream_id code debug_data ∷ []
      else [])
    ++ (failures code p.streams ++ connection_error code ∷ connection_closed code ∷ [])

closing :
    (q : Http2Protocol) (code : ErrorCode) (sent : StepResult)
    → Distinct q.streams
    → q.closed ≡ true
    → q.connection_error_code ≡ code
    → ((fail_all_streams q code sent).1.closed ≡ true)
      × ((fail_all_streams q code sent).1.streams ≡ [])
      × ((fail_all_streams q code sent).1.connection_error_code ≡ code)
      × (((fail_all_streams q code sent).0.events ++ connection_error code ∷ [])
            ++ connection_closed code ∷ []
          ≡ sent.events
            ++ (failures code q.streams ++ connection_error code ∷ connection_closed code ∷ []))
closing q code sent d closed error =
    let f = fail_all_streams-Fails q code sent d in
    (
      f.same_closed ∙ closed,
      f.none_left,
      f.same_error ∙ error,
      rw (f.announced, append_assoc, append_assoc) refl,
    )

-- Where no id is there twice, failing the connection closes it with that code and leaves no stream.
-- It announces a GOAWAY unless one was sent or the transport is gone, then every stream, in their
-- order, as closed and failed once, and then the error and the closing of the connection.
pub fail_connection-closed :
    (p : Http2Protocol) (code : ErrorCode) (debug_data : List ℕ)
    → Distinct p.streams
    → ((fail_connection p code debug_data).1.closed ≡ true)
      × ((fail_connection p code debug_data).1.streams ≡ [])
      × ((fail_connection p code debug_data).1.connection_error_code ≡ code)
      × ((fail_connection p code debug_data).0.events ≡ connection_events p code debug_data)
unfolding fail_connection
fail_connection-closed p code debug_data d =
    elim (Bool-cases (not p.sent_goaway && not p.transport_closed)) [
      | inl t ↦ rw t (closing _ code _ d refl refl)
      | inr f ↦ rw f (closing _ code _ d refl refl)
    ]
