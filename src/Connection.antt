-- ===== src/Connection.antt =====
-- class Connection (include/chttp2/connection.hpp, src/connection.cpp): a session, its place in the
-- reactor and the timers of its heartbeat. The calls of the reactor and of the owner's handlers are a
-- list of effects; whether the reactor registers the socket, and the results of the transport, are
-- arguments. Of the reactor (src/reactor.cpp) the timers' ids are modelled, for a reactor that runs.
-- The handlers' own calls back into the connection are not followed; an interval below 0 is 0.
pub mod Timers
pub mod Reacting
use chttp.Prelude.{
  ℕ, ◌+◌, ◌==◌, ltb, List, [], ◌∷◌, ◌++◌, Option, none, some, Bool, true, false, not, ◌&&◌, ◌||◌,
  if◌then◌else◌, length, ◌>>=◌,
}
use chttp.Hpack.HuffmanCoder.{HuffmanCoder}
use chttp.Protocol.State.{Request}
use chttp.Session
use chttp.Session.{
  RequestContext, Answer, SessionEvent, request_done, session_closing, session_dead, ping_ack,
  Session,
}
use chttp.Session.Requests
use chttp.Session.Requests.{Read, Write}

-- Which timers are to fire, and the next id.
pub record ReactorTimers : Type 0 where
  pub next_timer_id : ℕ
  pub armed : ℕ → Bool

-- Reactor::scheduleOnce and Reactor::cancelTimer; a timer that fires is armed no more.
unfoldable pub schedule_once : ReactorTimers → ℕ × ReactorTimers
schedule_once t =
    let id = t.next_timer_id in
    (id, record { next_timer_id = id + 1; armed = λ k. k == id || t.armed k })

unfoldable pub cancel_timer : ReactorTimers → ℕ → ReactorTimers
cancel_timer t id = record t { armed = λ k. not (k == id) && t.armed k }

pub data Effect : Type 0 where
  request_done_handler : RequestContext → Answer → Effect
  connection_draining_handler : Effect
  connection_lost_handler : Effect
  register_fd : ℕ → Effect
  unregister_fd : ℕ → Effect
  enable_write : ℕ → Bool → Effect

pub record Connection : Type 0 where
  pub ping_interval_sec : ℕ
  pub ping_timeout_sec : ℕ
  pub session : Session
  pub session_fd : Option ℕ
  pub connected : Bool
  pub pending_ping : Bool
  pub ping_timer_id : ℕ
  pub ping_timeout_timer_id : ℕ
  pub timers : ReactorTimers

unfoldable pub can_accept_new_requests : Connection → Bool
can_accept_new_requests c =
    c.connected && (Session.is_healthy c.session && not c.session.going_away)

-- The result of the session's start, and the socket of its transport.
unfoldable pub connect : Connection → Bool → Option ℕ → Bool × Connection
connect c transport_ready fd =
    let (ok, s) = Session.start c.session transport_ready in
    let c' : Connection = record c { session = s; session_fd = fd } in
    if not ok then (false, record c { session = s }) else elim fd [
      | none ↦ (false, record c' { session = (Session.close s).1 })
      | some n ↦ (true, record c' { connected = true })
    ]

unfoldable pub schedule_ping_timer : Connection → Connection
schedule_ping_timer c =
    let (id, t) = schedule_once c.timers in
    if c.ping_interval_sec == 0 || not c.connected
    then c
    else record c { ping_timer_id = id; timers = t }

cancel_if : ReactorTimers → ℕ → ReactorTimers
cancel_if t id = if id == 0 then t else cancel_timer t id

unfoldable pub cancel_ping_timers : Connection → Connection
unfolding cancel_if
cancel_ping_timers c = record c {
  timers = cancel_if (cancel_if c.timers c.ping_timer_id) c.ping_timeout_timer_id;
  ping_timer_id = 0;
  ping_timeout_timer_id = 0;
  pending_ping = false;
}

unfoldable pub update_write_interest : Connection → List Effect
update_write_interest c = elim c.session_fd [
  | none ↦ []
  | some fd ↦ enable_write fd (not (length c.session.outbound == 0)) ∷ []
]

unfoldable pub register_with_reactor : Connection → Bool → Bool × List Effect × Connection
register_with_reactor c registered = elim c.session_fd [
  | none ↦ (false, [], c)
  | some fd ↦
      if not c.connected
      then (false, [], c)
      else if not registered
      then (
        false,
        register_fd fd ∷ [],
        record c { connected = false; session = (Session.close c.session).1 },
      )
      else (true, register_fd fd ∷ update_write_interest c, schedule_ping_timer c)
]

unfoldable pub drop_fd : Connection → List Effect
drop_fd c = elim c.session_fd [ none ↦ [] | some fd ↦ unregister_fd fd ∷ [] ]

unfoldable pub mark_dead : Connection → Connection
mark_dead c = record (cancel_ping_timers (record c { connected = false })) { session_fd = none }

-- PING_ACK: the heartbeat goes on.
unfoldable pub acknowledge_ping : Connection → Connection
unfolding cancel_if
acknowledge_ping c =
    if c.pending_ping
    then schedule_ping_timer (record c {
      pending_ping = false;
      timers = cancel_if c.timers c.ping_timeout_timer_id;
      ping_timeout_timer_id = 0;
    })
    else c

unfoldable pub process_session_event : Connection → SessionEvent → List Effect × Connection
process_session_event c (request_done context answer) =
    (request_done_handler context answer ∷ [], c)
process_session_event c session_closing = (connection_draining_handler ∷ [], c)
process_session_event c session_dead = (drop_fd c ++ connection_lost_handler ∷ [], mark_dead c)
process_session_event c ping_ack = ([], acknowledge_ping c)

unfoldable pub process_session_events : Connection → List SessionEvent → List Effect × Connection
process_session_events c [] = ([], c)
process_session_events c (e ∷ events) =
    let (effects, c') = process_session_event c e in
    let (more, c'') = process_session_events c' events in (effects ++ more, c'')

-- What follows a call of the session.
unfoldable pub after_session : Connection → List SessionEvent × Session → List Effect × Connection
after_session c (events, s) =
    let (effects, c') = process_session_events (record c { session = s }) events in
    (effects ++ update_write_interest c', c')

unfoldable pub close_on_reactor : Connection → List Effect × Connection
close_on_reactor c =
    let (events, s) = Session.close c.session in
    let (effects, c') = process_session_events (record (mark_dead c) { session = s }) events in
    if not c.connected then ([], c) else (drop_fd c ++ effects, c')

unfoldable pub cancel_request_on_reactor : Connection → RequestContext → List Effect × Connection
cancel_request_on_reactor c context = after_session c (Session.cancel_request c.session context)

unfoldable pub on_session_writable : Connection → List Write → List Effect × Connection
on_session_writable c writes =
    let c' : Connection = record c { session = (Requests.on_writable c.session writes).1 } in
    if not c.connected then ([], c) else (update_write_interest c', c')

-- The timer of the heartbeat has fired.
unfoldable pub on_ping_timer : Connection → List Effect × Connection
on_ping_timer c =
    let fired : Connection = record c {
      timers = cancel_timer c.timers c.ping_timer_id;
      ping_timer_id = 0;
    } in
    let sent : Connection = record fired { session = Session.send_ping c.session } in
    let (id, t) = schedule_once sent.timers in
    let pinged : Connection = record sent { pending_ping = true } in
    if not c.connected
    then ([], fired)
    else if ltb 0 (length c.session.protocol.streams)
    then ([], schedule_ping_timer fired)
    else if c.pending_ping
    then ([], fired)
    else (
      update_write_interest sent,
      (if c.ping_timeout_sec == 0
          then pinged
          else record pinged { ping_timeout_timer_id = id; timers = t }),
    )

-- The timer that waits for the acknowledgement has fired.
unfoldable pub on_ping_timeout : Connection → List Effect × Connection
on_ping_timeout c =
    let fired : Connection = record c {
      timers = cancel_timer c.timers c.ping_timeout_timer_id;
      ping_timeout_timer_id = 0;
    } in
    let (effects, c') = close_on_reactor (record fired { pending_ping = false }) in
    if not c.pending_ping || not c.connected
    then ([], fired)
    else (effects ++ connection_lost_handler ∷ [], c')

module _ (huffman : HuffmanCoder) where
  -- Whether the request is taken.
  unfoldable pub submit_on_reactor :
      Connection → Request → RequestContext → Option (Bool × List Effect × Connection)
  submit_on_reactor c request context = if not c.connected then some (false, [], c) else (do
    step ← Requests.submit huffman c.session request context
    let (effects, c') = after_session c step
    some (true, effects, c'))

  unfoldable pub on_session_readable : Connection → List Read → Option (List Effect × Connection)
  on_session_readable c reads =
      if not c.connected
      then some ([], c)
      else (do step ← Requests.on_readable huffman c.session reads; some (after_session c step))

-- What the reactor calls: the socket is ready, or a timer is due.
pub data Wake : Type 0 where
  wake_readable : List Read → Wake
  wake_writable : List Write → Wake
  wake_timer : ℕ → Wake

-- A timer that is not armed does not fire.
unfoldable pub on_timer : Connection → ℕ → List Effect × Connection
on_timer c id =
    if not (c.timers.armed id)
    then ([], c)
    else if id == c.ping_timer_id
    then on_ping_timer c
    else if id == c.ping_timeout_timer_id
    then on_ping_timeout c
    else ([], c)

unfoldable pub react : HuffmanCoder → Connection → Wake → Option (List Effect × Connection)
react huffman c (wake_readable reads) = on_session_readable huffman c reads
react huffman c (wake_writable writes) = some (on_session_writable c writes)
react huffman c (wake_timer id) = some (on_timer c id)
