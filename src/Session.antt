-- ===== src/Session.antt =====
-- class Http2Session (include/chttp2/http2_session.hpp, src/http2_session.cpp): a connection's
-- protocol, the bytes that wait to be written and the request that each stream answers.
-- SessionEvent is of include/chttp2/ihttp_session.hpp, the transport's results are of
-- include/chttp2/stream_transport.hpp. The transport is an argument: whether it is made and
-- initialised, and the results of its reads and writes, in their order. A RequestContext has the
-- members that the session reads or writes. `none` is an exception of the protocol.
pub mod Requests
pub mod Events
pub mod Conservation
pub mod Submitting
pub mod Reading
pub mod Writing
pub mod Reach
use chttp.Prelude.{
  ℕ, ◌+◌, ◌==◌, ltb, leb, List, [], ◌∷◌, ◌++◌, Option, none, some, Bool, true, false, not, ◌&&◌,
  ◌||◌, if◌then◌else◌, length, ◌>>=◌,
}
use chttp.Prelude.Map.{Map, lookup, assign, erase}
use chttp.Hpack.HuffmanCoder.{HuffmanCoder}
use chttp.Protocol.Constants.{ErrorCode, cancel}
use chttp.Protocol.State.{
  Http2Protocol, Request, Response, StepResult, ProtocolEvent, connection_started,
  settings_received, settings_ack_received, ping_received, ping_ack_received, goaway_sent,
  goaway_received, connection_error, connection_closed, transport_closed, stream_opened,
  stream_headers_received, stream_reset_received, stream_closed, window_update_received,
  push_promise_received, unknown_frame_received, response_completed, response_failed,
}
use chttp.Protocol.Control
use chttp.Protocol.Submit.{submit_request}
use chttp.Protocol.Receive.{receive_bytes}

pub record RequestContext : Type 0 where
  pub request_id : ℕ
  pub stream_id : ℕ
  pub canceled : Bool
  pub finished : Bool

-- The response that a request is done with: that of the peer, or one that Response's functions make.
pub data Answer : Type 0 where
  answered : Response → Answer
  session_not_healthy : Answer
  connection_closed_by_us : Answer
  connection_lost : Answer
  request_canceled : Answer
  protocol_failed : ErrorCode → Answer

pub data SessionEvent : Type 0 where
  request_done : RequestContext → Answer → SessionEvent
  session_closing : SessionEvent
  session_dead : SessionEvent
  ping_ack : SessionEvent

pub record OutboundChunk : Type 0 where
  pub data_left : List ℕ
  pub offset : ℕ

pub record Session : Type 0 where
  pub protocol : Http2Protocol
  pub has_transport : Bool
  pub outbound : List OutboundChunk
  pub started : Bool
  pub healthy : Bool
  pub going_away : Bool
  pub stream_contexts : Map ℕ RequestContext

unfoldable pub is_healthy : Session → Bool
is_healthy s = s.started && (s.healthy && not s.protocol.closed)

unfoldable pub has_stream_capacity : Session → Bool
has_stream_capacity s = ltb (length s.protocol.streams) s.protocol.max_concurrent_streams

unfoldable pub chunks : List (List ℕ) → List OutboundChunk
chunks [] = []
chunks (bytes ∷ outbound) = record { data_left = bytes; offset = 0 } ∷ chunks outbound

-- The state of the protocol after a step, and what the step sends.
unfoldable pub consume_step_result : Session → StepResult × Http2Protocol → Session
consume_step_result s (result, p) = record s {
  protocol = p;
  outbound = s.outbound ++ chunks result.outbound;
}

-- Whether the session is started, with the transport made and initialised or not.
unfoldable pub start : Session → Bool → Bool × Session
start s transport_ready =
    if s.started then (true, s) else if not transport_ready then (false, s) else (
      true,
      record (consume_step_result s (Control.start s.protocol)) {
        has_transport = true;
        started = true;
        healthy = true;
      },
    )

unfoldable pub fail_contexts : Map ℕ RequestContext → Answer → List SessionEvent
fail_contexts [] answer = []
fail_contexts ((id, context) ∷ contexts) answer =
    request_done context answer ∷ fail_contexts contexts answer

unfoldable pub fail_all_streams : Session → Answer → List SessionEvent × Session
fail_all_streams s answer =
    (fail_contexts s.stream_contexts answer, record s { stream_contexts = [] })

unfoldable pub close : Session → List SessionEvent × Session
close s =
    let s' = consume_step_result s (Control.close s.protocol) in
    if not s.started
    then ([], s)
    else fail_all_streams
        (record s' {
          started = false;
          healthy = false;
          going_away = false;
          outbound = [];
          has_transport = false;
        })
        connection_closed_by_us

-- The request of a stream is done, if there is one.
unfoldable pub finish_request : Session → ℕ → Answer → List SessionEvent × Session
finish_request s id answer = elim (lookup ◌==◌ id s.stream_contexts) [
  | none ↦ ([], s)
  | some context ↦ (
    request_done context answer ∷ [],
    record s { stream_contexts = erase ◌==◌ id s.stream_contexts },
  )
]

unfoldable pub lose_connection : Session → List SessionEvent × Session
lose_connection s =
    let (events, s') = fail_all_streams (record s { healthy = false }) connection_lost in
    (events ++ session_dead ∷ [], s')

-- One round of the loop of translateEvents.
unfoldable pub translate_event : Session → ProtocolEvent → List SessionEvent × Session
translate_event s (response_completed id response) = finish_request s id (answered response)
translate_event s (response_failed id code) = finish_request s id (protocol_failed code)
translate_event s (goaway_received last code debug_data) =
    (session_closing ∷ [], record s { going_away = true })
translate_event s (ping_ack_received payload) = (ping_ack ∷ [], s)
translate_event s (connection_error code) = lose_connection s
translate_event s (connection_closed code) = lose_connection s
translate_event s transport_closed = lose_connection s
translate_event s connection_started = ([], s)
translate_event s settings_received = ([], s)
translate_event s settings_ack_received = ([], s)
translate_event s (ping_received payload) = ([], s)
translate_event s (goaway_sent last code debug_data) = ([], s)
translate_event s (stream_opened id) = ([], s)
translate_event s (stream_headers_received id response) = ([], s)
translate_event s (stream_reset_received id code) = ([], s)
translate_event s (stream_closed id code) = ([], s)
translate_event s (window_update_received id increment) = ([], s)
translate_event s (push_promise_received id promised) = ([], s)
translate_event s (unknown_frame_received t id flags payload) = ([], s)

unfoldable pub translate_events : Session → List ProtocolEvent → List SessionEvent × Session
translate_events s [] = ([], s)
translate_events s (e ∷ protocol_events) =
    let (events, s') = translate_event s e in
    let (more, s'') = translate_events s' protocol_events in (events ++ more, s'')

-- The stream is cancelled, and its request done if it is not yet.
unfoldable pub cancel_stream : Session → ℕ → List SessionEvent × Session
cancel_stream s id =
    let (result, p) = Control.cancel_stream s.protocol id cancel in
    let (events, s') = translate_events (consume_step_result s (result, p)) result.events in
    let (more, s'') = finish_request s' id request_canceled in (events ++ more, s'')

unfoldable pub cancel_request : Session → RequestContext → List SessionEvent × Session
cancel_request s context =
    if context.stream_id == 0 || not (is_healthy s)
    then ([], s)
    else elim (lookup ◌==◌ context.stream_id s.stream_contexts) [
      | none ↦ ([], s)
      | some found ↦ cancel_stream s context.stream_id
    ]

unfoldable pub send_ping : Session → Session
send_ping s = if not (is_healthy s) then s else consume_step_result s (Control.send_ping s.protocol)

unfoldable pub handle_transport_failure : Session → List SessionEvent × Session
handle_transport_failure s =
    let s' = consume_step_result s (Control.on_transport_closed s.protocol) in
    let (events, s'') =
      fail_all_streams (record s' { healthy = false; outbound = [] }) connection_lost in
    if not s.healthy then ([], s) else (events ++ session_dead ∷ [], s'')
