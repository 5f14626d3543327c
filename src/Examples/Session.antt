-- ===== src/Examples/Session.antt =====
-- A concrete session (src/http2_session.cpp) that waits for the answer of stream 1.
use chttp.Prelude.{ℕ, List, [], ◌∷◌, ◌≡◌, some, true, false, refl, codes, arith}
use chttp.Protocol.Constants.{protocol_error}
use chttp.Protocol.State.{response_failed, goaway_received}
use chttp.Session.{
  RequestContext, SessionEvent, Session, is_healthy, start, close, translate_events, cancel_request,
}
use chttp.Session.Requests.{
  read_some, read_closed, wrote, write_failed, submit, on_readable, on_writable,
}
use chttp.Session.Events.{held, done, Answers, translate_events-Answers}
use chttp.Session.Conservation.{
  IsSoundSession, Conserves, waiting_in, close_finishes, cancel_request-Conserves,
}
use chttp.Session.Submitting.{with_submitted, submit-Conserves}
use chttp.Protocol.Sound.{OrUndefined}
use chttp.Session.Reading.{AtMostOnce, on_readable-AtMostOnce}
use chttp.Session.Writing.{Writes, on_writable-Writes}
use chttp.Session.Reach.{new_session, at_first, by_start, by_close, Reached-IsSoundSession}
use chttp.Examples.Hpack.{plain_coder}
use chttp.Examples.Protocol.{post, connected}
use chttp.Examples.Receive.{default_config, connected-IsSound}

abbrev asked : RequestContext
asked = record { request_id = 7; stream_id = 1; canceled = false; finished = false }

abbrev another : RequestContext
another = record { request_id = 8; stream_id = 0; canceled = true; finished = false }

abbrev pub busy : Session
busy = record {
  protocol = connected;
  has_transport = true;
  outbound = record { data_left = codes "bytes"; offset = 2 } ∷ [];
  started = true;
  healthy = true;
  going_away = false;
  stream_contexts = (1, asked) ∷ [];
}

pub busy-IsSoundSession : IsSoundSession busy
busy-IsSoundSession = (connected-IsSound, (omega arith, tt, tt))

busy-is_healthy : is_healthy busy ≡ true
unfolding is_healthy
busy-is_healthy = refl

translate_events-Answers_example :
    Answers 5 busy
      (translate_events busy (goaway_received 1 0 [] ∷ response_failed 1 protocol_error ∷ []))
translate_events-Answers_example =
    translate_events-Answers 5 (goaway_received 1 0 [] ∷ response_failed 1 protocol_error ∷ []) busy
      (omega arith, tt, tt)

submit-Conserves_example :
    (out : List SessionEvent × Session) × (submit plain_coder busy post another ≡ some out)
    × Conserves (with_submitted busy post another) out
submit-Conserves_example = submit-Conserves plain_coder busy post another busy-IsSoundSession

cancel_request-Conserves_example : Conserves (waiting_in busy) (cancel_request busy asked)
cancel_request-Conserves_example = cancel_request-Conserves busy asked busy-IsSoundSession

close_finishes_example :
    IsSoundSession (close busy).1
    × ((close busy).1.stream_contexts ≡ [])
    × ((r : ℕ) → done r (close busy).0 ≡ held r busy.stream_contexts)
close_finishes_example = close_finishes busy busy-IsSoundSession refl

on_readable-AtMostOnce_example :
    (out : List SessionEvent × Session) × (on_readable plain_coder busy
        (read_some (0 ∷ 0 ∷ []) ∷ read_closed ∷ [])
      ≡ some out)
    × OrUndefined (out.1).protocol (AtMostOnce (λ r. held r busy.stream_contexts) out)
on_readable-AtMostOnce_example =
    on_readable-AtMostOnce plain_coder busy (read_some (0 ∷ 0 ∷ []) ∷ read_closed ∷ [])
      busy-IsSoundSession

on_writable-Writes_example : Writes busy.outbound (on_writable busy (wrote 1 ∷ write_failed ∷ []))
on_writable-Writes_example = on_writable-Writes busy (wrote 1 ∷ write_failed ∷ []) busy-is_healthy

Reached-IsSoundSession_example :
    IsSoundSession (close (start (new_session default_config) true).1).1
Reached-IsSoundSession_example =
    Reached-IsSoundSession plain_coder default_config
      (close (start (new_session default_config) true).1).1
      (by_close (start (new_session default_config) true).1
        (by_start (new_session default_config) true at_first))
