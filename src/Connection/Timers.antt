-- ===== src/Connection/Timers.antt =====
-- The timers of a Connection's heartbeat (src/connection.cpp): at most one is armed, none of a
-- connection that is not connected, and none is forgotten.
use chttp.Prelude.{
  ℕ, ◌<◌, ◌==◌, ◌≡◌, ◌⊎◌, refl, List, [], ◌∷◌, Bool, true, false, not, ◌&&◌, ◌||◌, inl, inr,
  Bool-cases, if◌then◌else◌, arith,
}
use chttp.Protocol.Sound.Outcome.{split_if}
use chttp.Session
use chttp.Session.{
  RequestContext, SessionEvent, request_done, session_closing, session_dead, ping_ack, Session,
}
use chttp.Connection.{
  ReactorTimers, schedule_once, cancel_timer, Effect, Connection, schedule_ping_timer,
  cancel_ping_timers, mark_dead, acknowledge_ping, process_session_event, process_session_events,
  after_session, close_on_reactor,
}

-- Of the timers of the connection, those with its ids are armed and no others; only one has an id,
-- none where the connection is not connected; and a ping that waits has no heartbeat beside it.
pub record Tidy (t : ReactorTimers) (ping timeout : ℕ) (pending connected : Bool) : Type 0 where
  pub armed_exactly : (k : ℕ) → t.armed k ≡ not (k == 0) && (k == ping || k == timeout)
  pub given : (0 < t.next_timer_id) × (ping < t.next_timer_id) × (timeout < t.next_timer_id)
  pub waits : ((pending ≡ true) × (ping ≡ 0)) ⊎ ((pending ≡ false) × (timeout ≡ 0))
  pub quiet : (connected ≡ true) ⊎ ((ping ≡ 0) × (timeout ≡ 0))

pub record IsTidy (c : Connection) : Type 0 where
  pub tidy : Tidy c.timers c.ping_timer_id c.ping_timeout_timer_id c.pending_ping c.connected

abbrev pub TidyFields : Connection → Type 0
TidyFields c = Tidy c.timers c.ping_timer_id c.ping_timeout_timer_id c.pending_ping c.connected

schedule-Tidy :
    (t : ReactorTimers)
    → Tidy t 0 0 false true
    → Tidy (schedule_once t).1 (schedule_once t).0 0 false true
unfolding schedule_once
schedule-Tidy t h = record {
  armed_exactly = λ k. let (some_id, _, _) = h.given in ground (arith, h.armed_exactly k);
  given = let (some_id, _, _) = h.given in (omega arith, omega arith, omega arith);
  waits = inr (refl, refl);
  quiet = inl refl;
}

-- Cancelling, or the firing of, the one timer that is armed.
pub cancel_ping-Tidy :
    (t : ReactorTimers) (ping : ℕ) (connected : Bool)
    → Tidy t ping 0 false connected
    → Tidy (cancel_timer t ping) 0 0 false connected
unfolding cancel_timer
cancel_ping-Tidy t ping connected h = record {
  armed_exactly = λ k. ground (arith, h.armed_exactly k);
  given = let (some_id, _, _) = h.given in (some_id, some_id, some_id);
  waits = inr (refl, refl);
  quiet = inr (refl, refl);
}

-- The acknowledgement cancels the timer that waits for it, if one is armed.
acknowledged-Tidy :
    (t : ReactorTimers) (timeout : ℕ) (connected : Bool)
    → Tidy t 0 timeout true connected
    → Tidy (if timeout == 0 then t else cancel_timer t timeout) 0 0 false connected
unfolding cancel_timer
acknowledged-Tidy t timeout connected h =
    let (some_id, _, _) = h.given in
    split_if (λ x. Tidy x 0 0 false connected) (timeout == 0)
      (λ e. record {
        armed_exactly = λ k. ground (arith, h.armed_exactly k);
        given = (some_id, some_id, some_id);
        waits = inr (refl, refl);
        quiet = inr (refl, refl);
      })
      (λ e. record {
        armed_exactly = λ k. ground (arith, h.armed_exactly k);
        given = (some_id, some_id, some_id);
        waits = inr (refl, refl);
        quiet = inr (refl, refl);
      })

cancel_all-Tidy :
    (c : Connection) (connected : Bool)
    → TidyFields c
    → Tidy (cancel_ping_timers c).timers 0 0 false connected
unfolding cancel_ping_timers cancel_timer
cancel_all-Tidy c connected h = record {
  armed_exactly = λ k. ground (arith, h.armed_exactly k);
  given =
      let (some_id, _, _) = h.given in
      elim (Bool-cases (c.ping_timer_id == 0)) [
        | inl p ↦ rw p (elim (Bool-cases (c.ping_timeout_timer_id == 0)) [
          | inl t ↦ rw t (some_id, some_id, some_id)
          | inr f ↦ rw f (some_id, some_id, some_id)
        ])
        | inr p ↦ rw p (elim (Bool-cases (c.ping_timeout_timer_id == 0)) [
          | inl t ↦ rw t (some_id, some_id, some_id)
          | inr f ↦ rw f (some_id, some_id, some_id)
        ])
      ];
  waits = inr (refl, refl);
  quiet = inr (refl, refl);
}

mark_dead-IsTidy : (c : Connection) → TidyFields c → IsTidy (mark_dead c)
unfolding mark_dead cancel_ping_timers
mark_dead-IsTidy c h = record { tidy = cancel_all-Tidy c false h }

pub schedule_ping_timer-IsTidy :
    (c : Connection)
    → Tidy c.timers 0 0 false c.connected
    → c.ping_timer_id ≡ 0
    → c.ping_timeout_timer_id ≡ 0
    → c.pending_ping ≡ false
    → IsTidy (schedule_ping_timer c)
unfolding schedule_ping_timer
schedule_ping_timer-IsTidy c h no_ping no_timeout no_wait =
    split_if IsTidy (c.ping_interval_sec == 0 || not c.connected)
      (λ _. record { tidy = rw (no_ping, no_timeout, no_wait) h })
      (λ e.
        let live : c.connected ≡ true = ground arith in
        record { tidy = rw (no_timeout, no_wait, live) (schedule-Tidy c.timers (rw live at h)) })

acknowledge_ping-IsTidy : (c : Connection) → TidyFields c → IsTidy (acknowledge_ping c)
unfolding acknowledge_ping
acknowledge_ping-IsTidy c h =
    split_if IsTidy c.pending_ping
      (λ waiting. elim h.waits [
        | inl (_, no_ping) ↦
            schedule_ping_timer-IsTidy
              (record c {
                pending_ping = false;
                timers =
                    (if c.ping_timeout_timer_id == 0
                      then c.timers
                      else cancel_timer c.timers c.ping_timeout_timer_id);
                ping_timeout_timer_id = 0;
              })
              (acknowledged-Tidy c.timers c.ping_timeout_timer_id c.connected
                (rw (waiting, no_ping) at h))
              no_ping refl refl
        | inr (not_waiting, _) ↦ absurd (ground arith)
      ])
      (λ _. record { tidy = h })

-- A step that leaves the timers tidy.
pub record Tidies (out : List Effect × Connection) : Type 0 where
  pub tidy : IsTidy (out.1)

process_session_event-Tidies :
    (c : Connection) (e : SessionEvent) → TidyFields c → Tidies (process_session_event c e)
unfolding process_session_event
process_session_event-Tidies c (request_done context answer) h = record {
  tidy = record { tidy = h };
}
process_session_event-Tidies c session_closing h = record { tidy = record { tidy = h } }
process_session_event-Tidies c session_dead h = record { tidy = mark_dead-IsTidy c h }
process_session_event-Tidies c ping_ack h = record { tidy = acknowledge_ping-IsTidy c h }

process_session_events-Tidies :
    (events : List SessionEvent) (c : Connection)
    → TidyFields c
    → Tidies (process_session_events c events)
unfolding process_session_events
process_session_events-Tidies [] c h = record { tidy = record { tidy = h } }
process_session_events-Tidies (e ∷ events) c h =
    let one = process_session_event-Tidies c e h in
    record { tidy = (process_session_events-Tidies events _ one.tidy.tidy).tidy }

pub after_session-Tidies :
    (c : Connection) (step : List SessionEvent × Session)
    → TidyFields c
    → Tidies (after_session c step)
unfolding after_session
after_session-Tidies c (events, s) h = record {
  tidy = (process_session_events-Tidies events (record c { session = s }) h).tidy;
}

pub close_on_reactor-Tidies : (c : Connection) → TidyFields c → Tidies (close_on_reactor c)
unfolding close_on_reactor
close_on_reactor-Tidies c h =
    let (events, s) = Session.close c.session in
    let dead = mark_dead-IsTidy c h in
    split_if Tidies (not c.connected) (λ _. record { tidy = record { tidy = h } })
      (λ _. record {
        tidy =
            (process_session_events-Tidies events (record (mark_dead c) { session = s })
              dead.tidy).tidy;
      })
