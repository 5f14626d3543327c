-- ===== src/Session/Events.antt =====
-- The requests that translateEvents and failAllStreams of Http2Session (src/http2_session.cpp)
-- answer: each is done once, and none is lost.
use chttp.Prelude.{
  ℕ, ◌+◌, ◌<◌, ◌==◌, ◌≡◌, ◌≢◌, ◌∙◌, refl, List, [], ◌∷◌, ◌++◌, some, false, inl, inr, Bool-cases,
  Option-cases, if◌then◌else◌, All, arith,
}
use chttp.Prelude.Map.{Map, lookup, erase}
use chttp.Protocol.State.{
  ProtocolEvent, connection_started, settings_received, settings_ack_received, ping_received,
  ping_ack_received, goaway_sent, goaway_received, connection_error, connection_closed,
  transport_closed, stream_opened, stream_headers_received, stream_reset_received, stream_closed,
  window_update_received, push_promise_received, unknown_frame_received, response_completed,
  response_failed,
}
use chttp.Session.{
  RequestContext, Answer, answered, protocol_failed, connection_lost, SessionEvent, request_done,
  session_closing, session_dead, ping_ack, Session, fail_contexts, fail_all_streams, finish_request,
  lose_connection, translate_event, translate_events,
}

abbrev pub one_of : ℕ → RequestContext → ℕ
one_of r context = if context.request_id == r then 1 else 0

-- How often the request `r` waits for a stream.
unfoldable pub held : ℕ → Map ℕ RequestContext → ℕ
held r [] = 0
held r ((id, context) ∷ contexts) = one_of r context + held r contexts

abbrev done_by : ℕ → SessionEvent → ℕ
done_by r (request_done context answer) = one_of r context
done_by r session_closing = 0
done_by r session_dead = 0
done_by r ping_ack = 0

-- How often the events say that the request `r` is done.
unfoldable pub done : ℕ → List SessionEvent → ℕ
done r [] = 0
done r (e ∷ events) = done_by r e + done r events

pub done-append : (r : ℕ) (xs ys : List SessionEvent) → done r (xs ++ ys) ≡ done r xs + done r ys
unfolding done
done-append r [] ys = ground arith
done-append r (x ∷ xs) ys = ground (arith, done-append r xs ys)

-- The keys of a map stand in it once and are below `next`.
abbrev pub keys : Map ℕ RequestContext → List ℕ
keys [] = []
keys ((id, context) ∷ contexts) = id ∷ keys contexts

abbrev pub KeysBelow : ℕ → Map ℕ RequestContext → Type 0
KeysBelow next [] = Unit
KeysBelow next ((id, context) ∷ contexts) =
    (id < next) × All (λ k. k ≢ id) (keys contexts) × KeysBelow next contexts

keys-erase :
    (k id : ℕ) (m : Map ℕ RequestContext)
    → All (λ j. j ≢ k) (keys m)
    → All (λ j. j ≢ k) (keys (erase ◌==◌ id m))
unfolding erase
keys-erase k id [] h = tt
keys-erase k id ((j, c) ∷ m) (ne, h) = elim (Bool-cases (j == id)) [
  | inl t ↦ rw t (keys-erase k id m h)
  | inr f ↦ rw f (ne, keys-erase k id m h)
]

erase-KeysBelow :
    (next id : ℕ) (m : Map ℕ RequestContext) → KeysBelow next m → KeysBelow next (erase ◌==◌ id m)
unfolding erase
erase-KeysBelow next id [] h = tt
erase-KeysBelow next id ((j, c) ∷ m) (below, fresh, h) = elim (Bool-cases (j == id)) [
  | inl t ↦ rw t (erase-KeysBelow next id m h)
  | inr f ↦ rw f (below, keys-erase j id m fresh, erase-KeysBelow next id m h)
]

erase_absent :
    (id : ℕ) (m : Map ℕ RequestContext) → All (λ j. j ≢ id) (keys m) → erase ◌==◌ id m ≡ m
unfolding erase
erase_absent id [] h = refl
erase_absent id ((j, c) ∷ m) (ne, h) = ground (arith, erase_absent id m h)

-- A request that is erased was there once.
held-erase :
    (next r id : ℕ) (context : RequestContext) (m : Map ℕ RequestContext)
    → KeysBelow next m
    → lookup ◌==◌ id m ≡ some context
    → one_of r context + held r (erase ◌==◌ id m) ≡ held r m
unfolding lookup erase held
held-erase next r id context [] h e = absurd (ground arith)
held-erase next r id context ((j, c) ∷ m) (below, fresh, h) e = elim (Bool-cases (j == id)) [
  | inl t ↦
      let same : j ≡ id = ground arith in
      let first : c ≡ context = ground (arith, e, t) in
      rw (t, erase_absent id m (rw same at fresh), first) refl
  | inr f ↦ let rest = held-erase next r id context m h (rw f at e) in rw f (omega (arith, rest))
]

done-fail_contexts :
    (r : ℕ) (answer : Answer) (m : Map ℕ RequestContext)
    → done r (fail_contexts m answer) ≡ held r m
unfolding done fail_contexts held
done-fail_contexts r answer [] = refl
done-fail_contexts r answer ((j, c) ∷ m) = ground (arith, done-fail_contexts r answer m)

-- A step of the session `s`: it leaves keys that are distinct and below `next`, every request that
-- waited is done once or waits still, and the protocol is as it was.
pub record Answers (next : ℕ) (s : Session) (step : List SessionEvent × Session) : Type 0 where
  pub keys_below : KeysBelow next (step.1).stream_contexts
  pub each_once :
      (r : ℕ) → done r step.0 + held r (step.1).stream_contexts ≡ held r s.stream_contexts
  pub same_protocol : (step.1).protocol ≡ s.protocol

pub Answers-nothing :
    (next : ℕ) (s : Session) → KeysBelow next s.stream_contexts → Answers next s ([], s)
unfolding done
Answers-nothing next s h = record {
  keys_below = h;
  each_once = λ r. omega arith;
  same_protocol = refl;
}

pub Answers-then :
    (next : ℕ) (s : Session) (first : List SessionEvent × Session)
    (second : List SessionEvent × Session)
    → Answers next s first
    → Answers next first.1 second
    → Answers next s (first.0 ++ second.0, second.1)
Answers-then next s first second a b = record {
  keys_below = b.keys_below;
  each_once = λ r. omega (arith, done-append r first.0 second.0, a.each_once r, b.each_once r);
  same_protocol = b.same_protocol ∙ a.same_protocol;
}

pub finish_request-Answers :
    (next : ℕ) (s : Session) (id : ℕ) (answer : Answer)
    → KeysBelow next s.stream_contexts
    → Answers next s (finish_request s id answer)
unfolding finish_request done
finish_request-Answers next s id answer h = elim (Option-cases (lookup ◌==◌ id s.stream_contexts)) [
  | inl e ↦ rw (e, finish_request) (Answers-nothing next s h)
  | inr (context, e) ↦
      rw (e, finish_request)
        (record {
          keys_below = erase-KeysBelow next id s.stream_contexts h;
          each_once = λ r. omega (arith, held-erase next r id context s.stream_contexts h e);
          same_protocol = refl;
        })
]

pub fail_all_streams-Answers :
    (next : ℕ) (s : Session) (answer : Answer) → Answers next s (fail_all_streams s answer)
unfolding fail_all_streams held
fail_all_streams-Answers next s answer = record {
  keys_below = tt;
  each_once = λ r. omega (arith, done-fail_contexts r answer s.stream_contexts);
  same_protocol = refl;
}

-- An event that is no request's changes no count.
quiet : (r : ℕ) (events : List SessionEvent) → done r (events ++ session_dead ∷ []) ≡ done r events
unfolding done
quiet r events = omega (arith, done-append r events (session_dead ∷ []))

lose_connection-Answers : (next : ℕ) (s : Session) → Answers next s (lose_connection s)
unfolding lose_connection
lose_connection-Answers next s =
    let a = fail_all_streams-Answers next (record s { healthy = false }) connection_lost in
    record {
      keys_below = a.keys_below;
      each_once = λ r. omega (arith, quiet r _, a.each_once r);
      same_protocol = a.same_protocol;
    }

translate_event-Answers :
    (next : ℕ) (s : Session) (e : ProtocolEvent)
    → KeysBelow next s.stream_contexts
    → Answers next s (translate_event s e)
unfolding translate_event done
translate_event-Answers next s (response_completed id response) h =
    finish_request-Answers next s id (answered response) h
translate_event-Answers next s (response_failed id code) h =
    finish_request-Answers next s id (protocol_failed code) h
translate_event-Answers next s (goaway_received last code debug_data) h = record {
  keys_below = h;
  each_once = λ r. omega arith;
  same_protocol = refl;
}
translate_event-Answers next s (ping_ack_received payload) h = record {
  keys_below = h;
  each_once = λ r. omega arith;
  same_protocol = refl;
}
translate_event-Answers next s (connection_error code) h = lose_connection-Answers next s
translate_event-Answers next s (connection_closed code) h = lose_connection-Answers next s
translate_event-Answers next s transport_closed h = lose_connection-Answers next s
translate_event-Answers next s connection_started h = Answers-nothing next s h
translate_event-Answers next s settings_received h = Answers-nothing next s h
translate_event-Answers next s settings_ack_received h = Answers-nothing next s h
translate_event-Answers next s (ping_received payload) h = Answers-nothing next s h
translate_event-Answers next s (goaway_sent last code debug_data) h = Answers-nothing next s h
translate_event-Answers next s (stream_opened id) h = Answers-nothing next s h
translate_event-Answers next s (stream_headers_received id response) h = Answers-nothing next s h
translate_event-Answers next s (stream_reset_received id code) h = Answers-nothing next s h
translate_event-Answers next s (stream_closed id code) h = Answers-nothing next s h
translate_event-Answers next s (window_update_received id increment) h = Answers-nothing next s h
translate_event-Answers next s (push_promise_received id promised) h = Answers-nothing next s h
translate_event-Answers next s (unknown_frame_received t id flags payload) h =
    Answers-nothing next s h

-- Where the keys are distinct and below `next`, the events of a step are translated so that every
-- request that waits is done exactly once or waits still, and the keys stay so.
pub translate_events-Answers :
    (next : ℕ) (protocol_events : List ProtocolEvent) (s : Session)
    → KeysBelow next s.stream_contexts
    → Answers next s (translate_events s protocol_events)
unfolding translate_events
translate_events-Answers next [] s h = Answers-nothing next s h
translate_events-Answers next (e ∷ protocol_events) s h =
    let a = translate_event-Answers next s e h in
    Answers-then next s _ _ a (translate_events-Answers next protocol_events _ a.keys_below)
