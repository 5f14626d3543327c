-- ===== src/Session/Reach.antt =====
-- The states that an Http2Session (src/http2_session.cpp) can come to: its calls as steps, in any
-- order.
use chttp.Prelude.{
  ℕ, ◌==◌, ◌≡◌, ◌∙◌, sym, subst, List, [], ◌∷◌, ◌++◌, some, Bool, false, not, inl, inr, Bool-cases,
  length,
}
use chttp.Hpack.HuffmanCoder.{HuffmanCoder}
use chttp.Protocol.State.{Request, StepResult, Http2Protocol}
use chttp.Protocol.Control
use chttp.Protocol.Lifecycle.{ClientConfig, configured}
use chttp.Protocol.Sound.Outcome.{split_if}
use chttp.Protocol.Sound.Calls.{Sound, start-Sound, send_ping-Sound, configured-IsSound}
use chttp.Session.{
  RequestContext, SessionEvent, Session, is_healthy, consume_step_result, start, close,
  cancel_request, send_ping, handle_transport_failure,
}
use chttp.Session.Requests.{
  Read, Write, write_blocked, write_failed, wrote, submit, on_readable, drop_finished, taken,
  advance_first, write_loop, on_writable,
}
use chttp.Session.Events.{KeysBelow}
use chttp.Session.Conservation.{
  IsSoundSession, close-Conserves, cancel_request-Conserves, handle_transport_failure-Conserves,
}
use chttp.Session.Submitting.{submit-Conserves}
use chttp.Session.Reading.{on_readable_runs}

abbrev pub new_session : ClientConfig → Session
new_session config = record {
  protocol = configured config;
  has_transport = false;
  outbound = [];
  started = false;
  healthy = false;
  going_away = false;
  stream_contexts = [];
}

-- The sessions after any calls; a read whose behaviour is undefined leads to none.
pub data Reached (huffman : HuffmanCoder) (config : ClientConfig) : Session → Type 0 where
  at_first : Reached huffman config (new_session config)
  by_start :
      (s : Session) (ready : Bool)
      → Reached huffman config s
      → Reached huffman config (start s ready).1
  by_close : (s : Session) → Reached huffman config s → Reached huffman config (close s).1
  by_submit :
      (s : Session) (request : Request) (context : RequestContext)
      (out : List SessionEvent × Session)
      → submit huffman s request context ≡ some out
      → Reached huffman config s
      → Reached huffman config out.1
  by_cancel :
      (s : Session) (context : RequestContext)
      → Reached huffman config s
      → Reached huffman config (cancel_request s context).1
  by_ping : (s : Session) → Reached huffman config s → Reached huffman config (send_ping s)
  by_read :
      (s : Session) (reads : List Read) (out : List SessionEvent × Session)
      → on_readable huffman s reads ≡ some out
      → (out.1).protocol.undefined_behavior ≡ false
      → Reached huffman config s
      → Reached huffman config out.1
  by_write :
      (s : Session) (writes : List Write)
      → Reached huffman config s
      → Reached huffman config (on_writable s writes).1

-- A step of the protocol that keeps the next id.
consume-IsSoundSession :
    (s : Session) (step : StepResult × Http2Protocol)
    → IsSoundSession s
    → Sound s.protocol.next_stream_id step
    → IsSoundSession (consume_step_result s step)
unfolding consume_step_result
consume-IsSoundSession s step (sound, keys) kept =
    (kept.sound, subst (λ n. KeysBelow n s.stream_contexts) (sym kept.same_next) keys)

record Starts (out : Bool × Session) : Type 0 where
  sound : IsSoundSession (out.1)

start-Starts : (s : Session) (ready : Bool) → IsSoundSession s → Starts (start s ready)
unfolding start
start-Starts s ready (sound, keys) =
    let started =
      consume-IsSoundSession s (Control.start s.protocol) (sound, keys)
        (start-Sound s.protocol sound) in
    split_if Starts s.started (λ _. record { sound = (sound, keys) })
      (λ _.
        split_if Starts (not ready) (λ _. record { sound = (sound, keys) })
          (λ _. record { sound = started }))

send_ping-IsSoundSession : (s : Session) → IsSoundSession s → IsSoundSession (send_ping s)
unfolding send_ping
send_ping-IsSoundSession s (sound, keys) = elim (Bool-cases (is_healthy s)) [
  | inl t ↦ rw t (
      consume-IsSoundSession s (Control.send_ping s.protocol) (sound, keys)
        (send_ping-Sound s.protocol sound))
  | inr f ↦ rw f (sound, keys)
]

record Wrote (out : List ℕ × Session) : Type 0 where
  sound : IsSoundSession (out.1)

write_loop-Wrote :
    (writes : List Write) (s : Session) → IsSoundSession s → Wrote (write_loop s writes)
unfolding write_loop
write_loop-Wrote [] s h = record { sound = h }
write_loop-Wrote (w ∷ writes) s h =
    split_if Wrote (length (drop_finished s.outbound) == 0) (λ _. record { sound = h })
      (λ _. by_result w (λ n.
        write_loop-Wrote writes (record s { outbound = advance_first n (drop_finished s.outbound) })
          h))
  where
    by_result :
        (w : Write)
        → ((n : ℕ)
            → Wrote (
                write_loop
                  (record s { outbound = advance_first n (drop_finished s.outbound) })
                  writes))
        → Wrote (elim w [
          | write_blocked ↦ ([], record s { outbound = drop_finished s.outbound })
          | write_failed ↦
              ([], (handle_transport_failure (record s { outbound = drop_finished s.outbound })).1)
          | wrote n ↦ (
            taken n (drop_finished s.outbound)
                ++ (write_loop
                    (record s { outbound = advance_first n (drop_finished s.outbound) })
                    writes).0,
            (write_loop
                (record s { outbound = advance_first n (drop_finished s.outbound) })
                writes).1,
          )
        ])
    by_result write_blocked more = record { sound = h }
    by_result write_failed more = record {
      sound =
          (handle_transport_failure-Conserves (record s { outbound = drop_finished s.outbound })
            h).sound;
    }
    by_result (wrote n) more = record { sound = (more n).sound }

on_writable-Wrote :
    (s : Session) (writes : List Write) → IsSoundSession s → Wrote (on_writable s writes)
unfolding on_writable
on_writable-Wrote s writes h =
    split_if Wrote (not (is_healthy s)) (λ _. record { sound = h })
      (λ _. write_loop-Wrote writes s h)

-- Every session that can be reached, by any calls in any order and whatever the transport gives, is
-- sound: its protocol is, and the streams that requests wait for are distinct and ids that the
-- protocol has given. A read whose behaviour is undefined leads to no session.
pub Reached-IsSoundSession :
    (huffman : HuffmanCoder) (config : ClientConfig) (s : Session)
    → Reached huffman config s
    → IsSoundSession s
Reached-IsSoundSession huffman config _ at_first = (configured-IsSound config, tt)
Reached-IsSoundSession huffman config _ (by_start s ready before) =
    (start-Starts s ready (Reached-IsSoundSession huffman config s before)).sound
Reached-IsSoundSession huffman config _ (by_close s before) =
    (close-Conserves s (Reached-IsSoundSession huffman config s before)).sound
Reached-IsSoundSession huffman config _ (by_submit s request context out runs before) =
    let (out', runs', c) =
      submit-Conserves huffman s request context (Reached-IsSoundSession huffman config s before) in
    let both : some out' ≡ some out = sym runs' ∙ runs in
    let same : out' ≡ out = cc both in
    subst (λ (x : List SessionEvent × Session). IsSoundSession x.1) same c.sound
Reached-IsSoundSession huffman config _ (by_cancel s context before) =
    (cancel_request-Conserves s context (Reached-IsSoundSession huffman config s before)).sound
Reached-IsSoundSession huffman config _ (by_ping s before) =
    send_ping-IsSoundSession s (Reached-IsSoundSession huffman config s before)
Reached-IsSoundSession huffman config _ (by_read s reads out runs defined before) =
    let (out', runs', a) =
      on_readable_runs huffman s reads (Reached-IsSoundSession huffman config s before) in
    let both : some out' ≡ some out = sym runs' ∙ runs in
    let same : out' ≡ out = cc both in
    subst (λ (x : List SessionEvent × Session). IsSoundSession x.1) same a.sound
Reached-IsSoundSession huffman config _ (by_write s writes before) =
    (on_writable-Wrote s writes (Reached-IsSoundSession huffman config s before)).sound
