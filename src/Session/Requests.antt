-- ===== src/Session/Requests.antt =====
-- submit, onReadable and onWritable of Http2Session (src/http2_session.cpp). The results of the
-- transport's reads and writes are a list; where it ends the transport would block. Beside the state
-- onWritable gives the bytes that the transport took.
use chttp.Prelude.{
  ℕ, ◌+◌, ◌==◌, leb, List, [], ◌∷◌, ◌++◌, Option, some, Bool, not, ◌&&◌, if◌then◌else◌, length,
  take, drop, ◌>>=◌,
}
use chttp.Prelude.Map.{assign}
use chttp.Hpack.HuffmanCoder.{HuffmanCoder}
use chttp.Protocol.State.{Http2Protocol, Request, StepResult}
use chttp.Protocol.Submit.{submit_request}
use chttp.Protocol.Receive.{receive_bytes}
use chttp.Session.{
  RequestContext, session_not_healthy, SessionEvent, request_done, OutboundChunk, Session,
  is_healthy, consume_step_result, translate_events, cancel_stream, handle_transport_failure,
}

pub data Read : Type 0 where
  read_blocked : Read
  read_closed : Read
  read_failed : Read
  read_some : List ℕ → Read

pub data Write : Type 0 where
  write_blocked : Write
  write_failed : Write
  wrote : ℕ → Write

-- The stream that the protocol opened answers the request.
unfoldable pub register : Session → RequestContext → StepResult → Session
register s context result =
    let id = result.submitted_stream_id in
    if result.has_submitted_stream
    then record s {
      stream_contexts = assign ◌==◌ id (record context { stream_id = id }) s.stream_contexts;
    }
    else s

-- What submit does once the protocol has taken its step.
unfoldable pub after_submit :
    Session → RequestContext → StepResult × Http2Protocol → List SessionEvent × Session
after_submit s context (result, p) =
    let id = if result.has_submitted_stream then result.submitted_stream_id else 0 in
    let s' = consume_step_result (register s context result) (result, p) in
    let (events, s'') = translate_events s' result.events in
    let (more, s''') = cancel_stream s'' id in
    if not (id == 0) && (context.canceled && not context.finished)
    then (events ++ more, s''')
    else (events, s'')

unfoldable pub finished : OutboundChunk → Bool
finished chunk = leb (length chunk.data_left) chunk.offset

unfoldable pub drop_finished : List OutboundChunk → List OutboundChunk
drop_finished [] = []
drop_finished (chunk ∷ outbound) =
    let rest = drop_finished outbound in if finished chunk then rest else chunk ∷ outbound

-- The bytes that a write of `n` takes.
abbrev pub taken : ℕ → List OutboundChunk → List ℕ
taken n [] = []
taken n (chunk ∷ outbound) = take n (drop chunk.offset chunk.data_left)

abbrev pub advance_first : ℕ → List OutboundChunk → List OutboundChunk
advance_first n [] = []
advance_first n (chunk ∷ outbound) = record chunk { offset = chunk.offset + n } ∷ outbound

unfoldable pub write_loop : Session → List Write → List ℕ × Session
write_loop s [] = ([], record s { outbound = drop_finished s.outbound })
write_loop s (w ∷ writes) =
    let chunks = drop_finished s.outbound in
    let s' : Session = record s { outbound = chunks } in
    let rest = λ (n : ℕ). write_loop (record s { outbound = advance_first n chunks }) writes in
    if length chunks == 0 then ([], s') else elim w [
      | write_blocked ↦ ([], s')
      | write_failed ↦ ([], (handle_transport_failure s').1)
      | wrote n ↦ (taken n chunks ++ (rest n).0, (rest n).1)
    ]

unfoldable pub on_writable : Session → List Write → List ℕ × Session
on_writable s writes = if not (is_healthy s) then ([], s) else write_loop s writes

module _ (huffman : HuffmanCoder) where
  unfoldable pub submit : Session → Request → RequestContext → Option (List SessionEvent × Session)
  submit s request context =
      if not (is_healthy s)
      then some (request_done context session_not_healthy ∷ [], s)
      else (do step ← submit_request huffman s.protocol request; some (after_submit s context step))

  -- The loop of onReadable, with the events so far. An error or the end of the connection drops
  -- them. It stops where the behaviour of the protocol is undefined.
  unfoldable pub read_loop :
      Session → List Read → List SessionEvent → Option (List SessionEvent × Session)
  read_loop s [] events = some (events, s)
  read_loop s (read_blocked ∷ reads) events = some (events, s)
  read_loop s (read_closed ∷ reads) events = some (handle_transport_failure s)
  read_loop s (read_failed ∷ reads) events = some (handle_transport_failure s)
  read_loop s (read_some [] ∷ reads) events = some (events, s)
  read_loop s (read_some (b ∷ bytes) ∷ reads) events = do
    (result, p) ← receive_bytes huffman s.protocol (b ∷ bytes)
    let (more, s') = translate_events (consume_step_result s (result, p)) result.events
    let rest = read_loop s' reads (events ++ more)
    (if p.undefined_behavior then some (events ++ more, s') else rest)

  unfoldable pub on_readable : Session → List Read → Option (List SessionEvent × Session)
  on_readable s reads = if not (is_healthy s) then some ([], s) else read_loop s reads []
