-- ===== src/Session/Reading.antt =====
-- onReadable and onWritable of Http2Session (src/http2_session.cpp): what they do to the requests
-- that wait, and what is written. Both drop events, so a request may be done at most once here.
use chttp.Prelude.{
  ℕ, ◌+◌, ◌≤◌, ◌≡◌, sym, refl, subst, List, [], ◌∷◌, ◌++◌, some, inl, inr, Bool-cases, arith,
}
use chttp.Hpack.HuffmanCoder.{HuffmanCoder}
use chttp.Protocol.Sound.{OrUndefined, or_undefined}
use chttp.Protocol.Sound.Receive.{receive_bytes_runs}
use chttp.Session.{
  SessionEvent, Session, is_healthy, consume_step_result, translate_events,
  handle_transport_failure,
}
use chttp.Session.Requests.{
  Read, read_blocked, read_closed, read_failed, read_some, read_loop, on_readable,
}
use chttp.Session.Events.{held, done, done-append, KeysBelow}
use chttp.Session.Conservation.{
  IsSoundSession, handle_transport_failure-Conserves, consume-Conserves,
}

-- A step leaves a sound session, and no request is done more often than it waited.
pub record AtMostOnce (waiting : ℕ → ℕ) (step : List SessionEvent × Session) : Type 0 where
  pub sound : IsSoundSession (step.1)
  pub at_most_once : (r : ℕ) → done r step.0 + held r (step.1).stream_contexts ≤ waiting r

-- The events so far and the requests that wait.
abbrev so_far : Session → List SessionEvent → ℕ → ℕ
so_far s events r = done r events + held r s.stream_contexts

module _ (huffman : HuffmanCoder) where
  stop_reading :
      (s : Session) (events : List SessionEvent)
      → IsSoundSession s
      → AtMostOnce (so_far s events) (events, s)
  stop_reading s events h = record { sound = h; at_most_once = λ r. omega arith }

  fail_reading :
      (s : Session) (events : List SessionEvent)
      → IsSoundSession s
      → AtMostOnce (so_far s events) (handle_transport_failure s)
  fail_reading s events h =
      let c = handle_transport_failure-Conserves s h in
      record { sound = c.sound; at_most_once = λ r. omega (arith, c.each_once r) }

  read_loop-AtMostOnce :
      (reads : List Read) (s : Session) (events : List SessionEvent)
      → IsSoundSession s
      → (out : List SessionEvent × Session) × (read_loop huffman s reads events ≡ some out)
        × AtMostOnce (so_far s events) out
  unfolding read_loop
  read_loop-AtMostOnce [] s events h = (_, refl, stop_reading s events h)
  read_loop-AtMostOnce (read_blocked ∷ reads) s events h = (_, refl, stop_reading s events h)
  read_loop-AtMostOnce (read_closed ∷ reads) s events h = (_, refl, fail_reading s events h)
  read_loop-AtMostOnce (read_failed ∷ reads) s events h = (_, refl, fail_reading s events h)
  read_loop-AtMostOnce (read_some [] ∷ reads) s events h = (_, refl, stop_reading s events h)
  read_loop-AtMostOnce (read_some (b ∷ bytes) ∷ reads) s events (sound, keys) =
      let ((result, p), runs, received) = receive_bytes_runs huffman s.protocol (b ∷ bytes) sound in
      let c =
        consume-Conserves s result p received.sound
          (subst (λ n. KeysBelow n s.stream_contexts) (sym received.same_next) keys) in
      let (more, s') = translate_events (consume_step_result s (result, p)) result.events in
      let (out, rest, a) = read_loop-AtMostOnce reads s' (events ++ more) c.sound in
      elim (Bool-cases p.undefined_behavior) [
        | inl t ↦ (
          (events ++ more, s'),
          rw (runs, t) refl,
          record {
            sound = c.sound;
            at_most_once = λ r. omega (arith, c.each_once r, done-append r events more);
          },
        )
        | inr f ↦ (
          out,
          rw (runs, f) rest,
          record {
            sound = a.sound;
            at_most_once =
                λ r. omega (arith, a.at_most_once r, c.each_once r, done-append r events more);
          },
        )
      ]

  pub on_readable_runs :
      (s : Session) (reads : List Read)
      → IsSoundSession s
      → (out : List SessionEvent × Session) × (on_readable huffman s reads ≡ some out)
        × AtMostOnce (λ r. held r s.stream_contexts) out
  unfolding on_readable done
  on_readable_runs s reads h = elim (Bool-cases (is_healthy s)) [
    | inr f ↦ (([], s), rw f refl, record { sound = h; at_most_once = λ r. omega arith })
    | inl t ↦
        let (out, runs, a) = read_loop-AtMostOnce reads s [] h in
        (
          out,
          rw t runs,
          record { sound = a.sound; at_most_once = λ r. omega (arith, a.at_most_once r) },
        )
  ]

  -- From a sound session onReadable, whatever the transport's reads give, comes to behaviour that
  -- C++ leaves undefined (in the protocol), or it ends without an exception and leaves a sound
  -- session, and no request is done more often than it waited.
  pub on_readable-AtMostOnce :
      (s : Session) (reads : List Read)
      → IsSoundSession s
      → (out : List SessionEvent × Session) × (on_readable huffman s reads ≡ some out)
        × OrUndefined (out.1).protocol (AtMostOnce (λ r. held r s.stream_contexts) out)
  on_readable-AtMostOnce s reads h =
      let (out, runs, a) = on_readable_runs s reads h in
      (out, runs, or_undefined (out.1).protocol a)
