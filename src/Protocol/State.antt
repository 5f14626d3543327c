-- ===== src/Protocol/State.antt =====
-- The data of the protocol: Request and Response (include/chttp2/request.hpp, response.hpp),
-- Stream (include/chttp2/stream.hpp, src/stream.cpp), ProtocolEvent
-- (include/chttp2/protocol_event.hpp), ProtocolStepResult and the members of Http2Protocol
-- (include/chttp2/http2_protocol.hpp). A Response has only the members that the protocol uses. The
-- pointers to `connectionOutFlow` in the streams are the state's own field. A std::unordered_map is
-- iterated in the order of its list. `undefined_behavior` is no member of the class: it is true once
-- the code has done what C++ leaves undefined. Nothing makes it false again, and from there on the
-- model says nothing of the code.
use chttp.Prelude.{
  ℕ, ◌-◌, List, [], ◌∷◌, ◌++◌, none, some, Bool, true, false, not, ◌&&◌, ◌||◌, if◌then◌else◌,
  length, ltb, codes, bytes_eq,
}
use chttp.Prelude.Int.{ℤ, negsuc}
use chttp.Prelude.Map.{Map, lookup}
use chttp.HeaderField.{HeaderField}
use chttp.Flow.InFlow
use chttp.Flow.InFlow.{InFlow}
use chttp.Flow.OutFlow
use chttp.Flow.OutFlow.{OutFlow}
use chttp.FrameCodec.{FrameCodec}
use chttp.Hpack.Codec.{Hpack}
use chttp.Protocol.Constants.{ErrorCode, StreamState, state_idle, no_error}

pub record Request : Type 0 where
  pub headers : Map (List ℕ) (List ℕ)
  pub body : List ℕ

abbrev pub has_header : Request → List ℕ → Bool
has_header r name = elim (lookup bytes_eq name r.headers) [ none ↦ false | some value ↦ true ]

unfoldable pub has_method : Request → List ℕ → Bool
has_method r method = elim (lookup bytes_eq (codes ":method") r.headers) [
  | none ↦ false
  | some value ↦ bytes_eq value method
]

unfoldable pub is_valid : Request → Bool
is_valid r =
    if not (has_header r (codes ":method"))
    then false
    else if has_method r (codes "CONNECT")
    then has_header r (codes ":authority")
      && (not (has_header r (codes ":scheme")) && not (has_header r (codes ":path")))
    else has_header r (codes ":scheme") && has_header r (codes ":path")

pub record Response : Type 0 where
  pub headers : List HeaderField
  pub trailers : List HeaderField
  pub body : List ℕ

pub record Stream : Type 0 where
  pub stream_id : ℕ
  pub stream_state : StreamState
  pub request_started : Bool
  pub local_end_stream_sent : Bool
  pub remote_end_stream_received : Bool
  pub waiting_for_continuation : Bool
  pub pending_header_end_stream : Bool
  pub final_response_headers_received : Bool
  pub trailing_headers_received : Bool
  pub response_complete : Bool
  pub is_head_request : Bool
  pub request_body_offset : ℕ
  pub expected_content_length : ℤ
  pub received_content_length : ℕ
  pub rqst : Request
  pub resp : Response
  pub last_ec : ErrorCode
  pub pending_header_block : List ℕ
  pub inflow : InFlow
  pub outflow : OutFlow

-- Stream::Stream.
abbrev pub new_stream : ℕ → Stream
new_stream id = record {
  stream_id = id;
  stream_state = state_idle;
  request_started = false;
  local_end_stream_sent = false;
  remote_end_stream_received = false;
  waiting_for_continuation = false;
  pending_header_end_stream = false;
  final_response_headers_received = false;
  trailing_headers_received = false;
  response_complete = false;
  is_head_request = false;
  request_body_offset = 0;
  expected_content_length = negsuc 0;
  received_content_length = 0;
  rqst = record { headers = []; body = [] };
  resp = record { headers = []; trailers = []; body = [] };
  last_ec = no_error;
  pending_header_block = [];
  inflow = InFlow.empty;
  outflow = OutFlow.empty;
}

unfoldable pub set_request : Stream → Request → Stream
set_request s r = record s { rqst = r; is_head_request = has_method r (codes "HEAD") }

unfoldable pub has_body : Stream → Bool
has_body s = ltb 0 (length s.rqst.body)

abbrev pub remaining_body_size : Stream → ℕ
remaining_body_size s = length s.rqst.body - s.request_body_offset

pub data ProtocolEvent : Type 0 where
  connection_started : ProtocolEvent
  settings_received : ProtocolEvent
  settings_ack_received : ProtocolEvent
  ping_received : List ℕ → ProtocolEvent
  ping_ack_received : List ℕ → ProtocolEvent
  goaway_sent : ℕ → ErrorCode → List ℕ → ProtocolEvent
  goaway_received : ℕ → ErrorCode → List ℕ → ProtocolEvent
  connection_error : ErrorCode → ProtocolEvent
  connection_closed : ErrorCode → ProtocolEvent
  transport_closed : ProtocolEvent
  stream_opened : ℕ → ProtocolEvent
  stream_headers_received : ℕ → Response → ProtocolEvent
  stream_reset_received : ℕ → ErrorCode → ProtocolEvent
  stream_closed : ℕ → ErrorCode → ProtocolEvent
  window_update_received : ℕ → ℕ → ProtocolEvent
  push_promise_received : ℕ → ℕ → ProtocolEvent
  unknown_frame_received : ℕ → ℕ → ℕ → List ℕ → ProtocolEvent
  response_completed : ℕ → Response → ProtocolEvent
  response_failed : ℕ → ErrorCode → ProtocolEvent

pub record StepResult : Type 0 where
  pub outbound : List (List ℕ)
  pub events : List ProtocolEvent
  pub has_submitted_stream : Bool
  pub submitted_stream_id : ℕ

abbrev pub no_result : StepResult
no_result = record {
  outbound = [];
  events = [];
  has_submitted_stream = false;
  submitted_stream_id = 0;
}

unfoldable pub merge_step_result : StepResult → StepResult → StepResult
merge_step_result dst src = record {
  outbound = dst.outbound ++ src.outbound;
  events = dst.events ++ src.events;
  has_submitted_stream = src.has_submitted_stream || dst.has_submitted_stream;
  submitted_stream_id =
      (if src.has_submitted_stream then src.submitted_stream_id else dst.submitted_stream_id);
}

-- appendOutboundFrame, given the frame's bytes, and events.push_back.
abbrev pub append_outbound : StepResult → List ℕ → StepResult
append_outbound r bytes = record r { outbound = r.outbound ++ bytes ∷ [] }

abbrev pub append_event : StepResult → ProtocolEvent → StepResult
append_event r e = record r { events = r.events ++ e ∷ [] }

pub record Http2Protocol : Type 0 where
  pub frame_codec : FrameCodec
  pub streams : Map ℕ Stream
  pub max_concurrent_streams : ℕ
  pub encode_header_table_size : ℕ
  pub decode_header_table_size : ℕ
  pub max_frame_size : ℕ
  pub local_max_frame_size : ℕ
  pub initial_window_size : ℕ
  pub max_header_list_size : ℕ
  pub enable_push : Bool
  pub next_stream_id : ℕ
  pub last_peer_stream_id : ℕ
  pub started : Bool
  pub closed : Bool
  pub sent_connection_preface : Bool
  pub sent_local_settings : Bool
  pub got_peer_settings : Bool
  pub sent_goaway : Bool
  pub received_goaway : Bool
  pub transport_closed : Bool
  pub expecting_continuation : Bool
  pub continuation_stream_id : ℕ
  pub connection_error_code : ErrorCode
  pub connection_debug_data : List ℕ
  pub ping_counter : ℕ
  pub connection_inflow : InFlow
  pub connection_out_flow : OutFlow
  pub hpack : Hpack
  pub ghost_header_block : List ℕ
  pub undefined_behavior : Bool

unfoldable pub can_submit_requests : Http2Protocol → Bool
can_submit_requests p = p.started && (not p.closed && (not p.sent_goaway && not p.received_goaway))
