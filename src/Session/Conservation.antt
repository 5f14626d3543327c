-- ===== src/Session/Conservation.antt =====
-- The requests that a call of Http2Session answers (src/http2_session.cpp): each that waits is done
-- exactly once or waits still, and the state stays sound.
use chttp.Prelude.{
  ℕ, ◌+◌, ◌==◌, ◌≡◌, sym, refl, ap, subst, List, [], ◌∷◌, ◌++◌, true, false, not, ◌||◌, inl, inr,
  Option-cases, arith,
}
use chttp.Prelude.Map.{lookup}
use chttp.Protocol.Constants.{cancel}
use chttp.Protocol.State.{Http2Protocol, StepResult}
use chttp.Protocol.Control
use chttp.Protocol.Sound.{IsSound}
use chttp.Protocol.Sound.Outcome.{split_if}
use chttp.Protocol.Sound.Calls.{cancel_stream-Sound, close-Sound, on_transport_closed-Sound}
use chttp.Session.{
  RequestContext, Answer, request_canceled, connection_closed_by_us, connection_lost, SessionEvent,
  session_dead, Session, is_healthy, consume_step_result, fail_all_streams, close, finish_request,
  translate_events, cancel_stream, cancel_request, handle_transport_failure,
}
use chttp.Session.Events.{
  held, done, done-append, KeysBelow, Answers, finish_request-Answers, fail_all_streams-Answers,
  translate_events-Answers,
}

-- The protocol is sound and the streams that are waited for are distinct and its own.
abbrev pub IsSoundSession : Session → Type 0
IsSoundSession s = IsSound s.protocol × KeysBelow s.protocol.next_stream_id s.stream_contexts

-- A step leaves a sound session, and as often as `waiting` says a request is done or waits still.
pub record Conserves (waiting : ℕ → ℕ) (step : List SessionEvent × Session) : Type 0 where
  pub sound : IsSoundSession (step.1)
  pub each_once : (r : ℕ) → done r step.0 + held r (step.1).stream_contexts ≡ waiting r

abbrev pub waiting_in : Session → ℕ → ℕ
waiting_in s r = held r s.stream_contexts

Answers-Conserves :
    (s : Session) (step : List SessionEvent × Session)
    → IsSound s.protocol
    → Answers s.protocol.next_stream_id s step
    → Conserves (waiting_in s) step
Answers-Conserves s step sound a = record {
  sound = (
    subst (λ q. IsSound q) (sym a.same_protocol) sound,
    subst (λ q. KeysBelow q.next_stream_id (step.1).stream_contexts) (sym a.same_protocol)
        a.keys_below,
  );
  each_once = a.each_once;
}

Conserves-nothing : (s : Session) → IsSoundSession s → Conserves (waiting_in s) ([], s)
unfolding done
Conserves-nothing s h = record { sound = h; each_once = λ r. omega arith }

pub Conserves-then :
    (waiting : ℕ → ℕ) (first second : List SessionEvent × Session)
    → Conserves waiting first
    → Conserves (waiting_in first.1) second
    → Conserves waiting (first.0 ++ second.0, second.1)
Conserves-then waiting first second a b = record {
  sound = b.sound;
  each_once = λ r. omega (arith, done-append r first.0 second.0, a.each_once r, b.each_once r);
}

-- The events of a step of the protocol.
pub consume-Conserves :
    (s : Session) (result : StepResult) (p : Http2Protocol)
    → IsSound p
    → KeysBelow p.next_stream_id s.stream_contexts
    → Conserves (waiting_in s) (translate_events (consume_step_result s (result, p)) result.events)
unfolding consume_step_result
consume-Conserves s result p sound h =
    Answers-Conserves (consume_step_result s (result, p)) _ sound (
      translate_events-Answers p.next_stream_id result.events (consume_step_result s (result, p)) h)

finish-Conserves :
    (s : Session) (id : ℕ) (answer : Answer)
    → IsSoundSession s
    → Conserves (waiting_in s) (finish_request s id answer)
finish-Conserves s id answer (sound, h) =
    Answers-Conserves s _ sound (finish_request-Answers s.protocol.next_stream_id s id answer h)

pub cancel_stream-Conserves :
    (s : Session) (id : ℕ) → IsSoundSession s → Conserves (waiting_in s) (cancel_stream s id)
unfolding cancel_stream
cancel_stream-Conserves s id (sound, h) =
    let step = Control.cancel_stream s.protocol id cancel in
    let kept = cancel_stream-Sound s.protocol id cancel sound in
    let first =
      consume-Conserves s step.0 step.1 kept.sound
        (subst (λ n. KeysBelow n s.stream_contexts) (sym kept.same_next) h) in
    Conserves-then (waiting_in s) _ _ first (finish-Conserves _ id request_canceled first.sound)

-- cancelRequest leaves a sound session, and every request that waited is done exactly once or waits
-- still.
pub cancel_request-Conserves :
    (s : Session) (context : RequestContext)
    → IsSoundSession s
    → Conserves (waiting_in s) (cancel_request s context)
unfolding cancel_request
cancel_request-Conserves s context h =
    split_if (Conserves (waiting_in s)) (context.stream_id == 0 || not (is_healthy s))
      (λ _. Conserves-nothing s h)
      (λ _. elim (Option-cases (lookup ◌==◌ context.stream_id s.stream_contexts)) [
        | inl e ↦ rw e (Conserves-nothing s h)
        | inr (found, e) ↦ rw e (cancel_stream-Conserves s context.stream_id h)
      ])

fail_all_streams-Conserves :
    (s : Session) (answer : Answer)
    → IsSound s.protocol
    → Conserves (waiting_in s) (fail_all_streams s answer)
fail_all_streams-Conserves s answer sound =
    Answers-Conserves s _ sound (fail_all_streams-Answers s.protocol.next_stream_id s answer)

pub close-Conserves : (s : Session) → IsSoundSession s → Conserves (waiting_in s) (close s)
unfolding close consume_step_result
close-Conserves s (sound, h) =
    let step = Control.close s.protocol in
    let closing : Session = record (consume_step_result s step) {
      started = false;
      healthy = false;
      going_away = false;
      outbound = [];
      has_transport = false;
    } in
    split_if (Conserves (waiting_in s)) (not s.started) (λ _. Conserves-nothing s (sound, h))
      (λ _.
        fail_all_streams-Conserves closing connection_closed_by_us
          (close-Sound s.protocol sound).sound)

close-emptied : (s : Session) → s.started ≡ true → (close s).1.stream_contexts ≡ []
unfolding close fail_all_streams
close-emptied s started = rw started refl

-- close of a started session leaves a sound session in which no request waits, and the events say of
-- every request that waited that it is done, as often as it waited.
pub close_finishes :
    (s : Session)
    → IsSoundSession s
    → s.started ≡ true
    → IsSoundSession (close s).1
      × ((close s).1.stream_contexts ≡ [])
      × ((r : ℕ) → done r (close s).0 ≡ held r s.stream_contexts)
unfolding held
close_finishes s h started =
    let c = close-Conserves s h in
    let none_waits = close-emptied s started in
    (c.sound, none_waits, λ r. omega (arith, c.each_once r, ap (held r) none_waits))

pub handle_transport_failure-Conserves :
    (s : Session) → IsSoundSession s → Conserves (waiting_in s) (handle_transport_failure s)
unfolding handle_transport_failure consume_step_result done
handle_transport_failure-Conserves s (sound, h) =
    let step = Control.on_transport_closed s.protocol in
    let lost : Session = record (consume_step_result s step) { healthy = false; outbound = [] } in
    let failing =
      fail_all_streams-Conserves lost connection_lost
        (on_transport_closed-Sound s.protocol sound).sound in
    split_if (Conserves (waiting_in s)) (not s.healthy) (λ _. Conserves-nothing s (sound, h))
      (λ _. record {
        sound = failing.sound;
        each_once = λ r. omega (arith, done-append r _ (session_dead ∷ []), failing.each_once r);
      })
