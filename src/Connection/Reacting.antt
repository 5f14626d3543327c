-- ===== src/Connection/Reacting.antt =====
-- What a Connection does when the reactor calls it (src/connection.cpp) leaves its timers tidy.
use chttp.Prelude.{
  ℕ, ◌==◌, ltb, ◌≡◌, ◌≢◌, refl, List, [], ◌>>=◌, Option, some, Bool, true, false, not, ◌||◌, inl,
  inr, length, arith,
}
use chttp.Hpack.HuffmanCoder.{HuffmanCoder}
use chttp.Protocol.Sound.{OrUndefined, or_undefined}
use chttp.Protocol.Sound.Outcome.{split_if}
use chttp.Session.{SessionEvent, Session}
use chttp.Session.Requests
use chttp.Session.Requests.{Read, Write}
use chttp.Session.Conservation.{IsSoundSession}
use chttp.Session.Reading.{on_readable_runs}
use chttp.Connection.{
  ReactorTimers, schedule_once, cancel_timer, Effect, Connection, after_session,
  on_session_readable, on_session_writable, on_ping_timer, on_ping_timeout, Wake, wake_readable,
  wake_writable, wake_timer, on_timer, react,
}
use chttp.Connection.Timers.{
  Tidy, IsTidy, Tidies, TidyFields, cancel_ping-Tidy, schedule_ping_timer-IsTidy,
  after_session-Tidies, close_on_reactor-Tidies,
}

-- The timer that waits for the acknowledgement.
await-Tidy :
    (t : ReactorTimers)
    → Tidy t 0 0 false true
    → Tidy (schedule_once t).1 0 (schedule_once t).0 true true
unfolding schedule_once
await-Tidy t h =
    let (some_id, _, _) = h.given in
    record {
      armed_exactly = λ k. ground (arith, h.armed_exactly k);
      given = (omega arith, omega arith, omega arith);
      waits = inl (refl, refl);
      quiet = inl refl;
    }

still_waiting-Tidy : (t : ReactorTimers) → Tidy t 0 0 false true → Tidy t 0 0 true true
still_waiting-Tidy t h = record {
  armed_exactly = h.armed_exactly;
  given = h.given;
  waits = inl (refl, refl);
  quiet = inl refl;
}

on_ping_timer-Tidies :
    (c : Connection) → TidyFields c → c.ping_timer_id ≢ 0 → Tidies (on_ping_timer c)
unfolding on_ping_timer
on_ping_timer-Tidies c h armed = elim h.waits [
  | inl (_, no_ping) ↦ absurd (armed no_ping)
  | inr (not_waiting, no_timeout) ↦
      let fired : Connection = record c {
        timers = cancel_timer c.timers c.ping_timer_id;
        ping_timer_id = 0;
      } in
      let quiet : Tidy fired.timers 0 0 false c.connected =
        cancel_ping-Tidy c.timers c.ping_timer_id c.connected (rw (not_waiting, no_timeout) at h) in
      let quiet_fired : IsTidy fired = record { tidy = rw (not_waiting, no_timeout) quiet } in
      split_if Tidies (not c.connected) (λ _. record { tidy = quiet_fired })
        (λ e.
          let live : c.connected ≡ true = ground arith in
          let awake : Tidy fired.timers 0 0 false true = rw live at quiet in
          split_if Tidies (ltb 0 (length c.session.protocol.streams))
            (λ _. record {
              tidy = schedule_ping_timer-IsTidy fired quiet refl no_timeout not_waiting;
            })
            (λ _.
              split_if Tidies c.pending_ping (λ _. record { tidy = quiet_fired })
                (λ _. record {
                  tidy =
                      split_if IsTidy (c.ping_timeout_sec == 0)
                        (λ _. record {
                          tidy = rw (no_timeout, live) (still_waiting-Tidy fired.timers awake);
                        })
                        (λ _. record { tidy = rw live (await-Tidy fired.timers awake) });
                })))
]

fired_timeout-Tidy :
    (pending : Bool) (t : ReactorTimers) (timeout : ℕ) (connected : Bool)
    → Tidy t 0 timeout true connected
    → Tidy (cancel_timer t timeout) 0 0 pending connected
unfolding cancel_timer
fired_timeout-Tidy true t timeout connected h = record {
  armed_exactly = λ k. ground (arith, h.armed_exactly k);
  given = let (some_id, _, _) = h.given in (some_id, some_id, some_id);
  waits = inl (refl, refl);
  quiet = inr (refl, refl);
}
fired_timeout-Tidy false t timeout connected h = record {
  armed_exactly = λ k. ground (arith, h.armed_exactly k);
  given = let (some_id, _, _) = h.given in (some_id, some_id, some_id);
  waits = inr (refl, refl);
  quiet = inr (refl, refl);
}

on_ping_timeout-Tidies :
    (c : Connection) → TidyFields c → c.ping_timeout_timer_id ≢ 0 → Tidies (on_ping_timeout c)
unfolding on_ping_timeout
on_ping_timeout-Tidies c h armed = elim h.waits [
  | inr (_, no_timeout) ↦ absurd (armed no_timeout)
  | inl (waiting, no_ping) ↦
      let timeout = c.ping_timeout_timer_id in
      let before : Tidy c.timers 0 timeout true c.connected = rw (waiting, no_ping) at h in
      let fired : Connection = record c {
        timers = cancel_timer c.timers timeout;
        ping_timeout_timer_id = 0;
        pending_ping = false;
      } in
      split_if Tidies (not c.pending_ping || not c.connected)
        (λ _. record {
          tidy = record {
            tidy =
                rw (waiting, no_ping) (fired_timeout-Tidy true c.timers timeout c.connected before);
          };
        })
        (λ _. record {
          tidy =
              (close_on_reactor-Tidies fired
                (rw no_ping (fired_timeout-Tidy false c.timers timeout c.connected before))).tidy;
        })
]

on_timer-Tidies : (c : Connection) (id : ℕ) → TidyFields c → Tidies (on_timer c id)
unfolding on_timer
on_timer-Tidies c id h =
    split_if Tidies (not (c.timers.armed id)) (λ _. record { tidy = record { tidy = h } })
      (λ e.
        let some_id : id ≢ 0 = ground (arith, h.armed_exactly id) in
        split_if Tidies (id == c.ping_timer_id) (λ same. on_ping_timer-Tidies c h (ground arith))
          (λ _.
            split_if Tidies (id == c.ping_timeout_timer_id)
              (λ same. on_ping_timeout-Tidies c h (ground arith))
              (λ _. record { tidy = record { tidy = h } })))

record Returns (o : Option (List Effect × Connection)) : Type 0 where
  out : List Effect × Connection
  runs : o ≡ some out
  tidies : Tidies out

after_read :
    (c : Connection) (o : Option (List SessionEvent × Session)) (step : List SessionEvent × Session)
    → o ≡ some step
    → IsTidy c
    → Returns (do step' ← o; some (after_session c step'))
after_read c o step runs t = rw runs (record {
  out = after_session c step;
  runs = refl;
  tidies = after_session-Tidies c step t.tidy;
})

react_runs :
    (huffman : HuffmanCoder) (c : Connection) (wake : Wake)
    → IsSoundSession c.session
    → IsTidy c
    → (out : List Effect × Connection) × (react huffman c wake ≡ some out) × Tidies out
unfolding react on_session_readable on_session_writable
react_runs huffman c (wake_readable reads) sound t =
    let (step, runs, _) = on_readable_runs huffman c.session reads sound in
    let r =
      split_if Returns (not c.connected)
        (λ _. record { out = ([], c); runs = refl; tidies = record { tidy = t } })
        (λ _. after_read c (Requests.on_readable huffman c.session reads) step runs t) in
    (r.out, r.runs, r.tidies)
react_runs huffman c (wake_writable writes) sound t = (
  on_session_writable c writes,
  refl,
  split_if Tidies (not c.connected) (λ _. record { tidy = t })
      (λ _. record { tidy = record { tidy = t.tidy } }),
)
react_runs huffman c (wake_timer id) sound t = (on_timer c id, refl, on_timer-Tidies c id t.tidy)

-- A call of the reactor to a connection whose session is sound and whose timers are tidy comes to
-- behaviour that C++ leaves undefined (in the protocol, from the bytes that it reads), or it returns
-- without an exception and the timers are tidy afterwards: those armed are the ones that the
-- connection has the ids of, at most one, and none once it is not connected.
pub react-Tidies :
    (huffman : HuffmanCoder) (c : Connection) (wake : Wake)
    → IsSoundSession c.session
    → IsTidy c
    → (out : List Effect × Connection) × (react huffman c wake ≡ some out)
      × OrUndefined (out.1).session.protocol (Tidies out)
react-Tidies huffman c wake sound t =
    let (out, runs, tidies) = react_runs huffman c wake sound t in
    (out, runs, or_undefined (out.1).session.protocol tidies)
