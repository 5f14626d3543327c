-- ===== src/Protocol/Calls.antt =====
-- The public interface of Http2Protocol (include/chttp2/http2_protocol.hpp): a call of its owner, and
-- calls one after the other. `none` is an exception.
use chttp.Prelude.{ℕ, List, [], ◌∷◌, Option, some, if◌then◌else◌, ◌>>=◌}
use chttp.Hpack.HuffmanCoder.{HuffmanCoder}
use chttp.Protocol.Constants.{ErrorCode}
use chttp.Protocol.State.{Http2Protocol, Request, StepResult, no_result}
use chttp.Protocol.Control.{start, cancel_stream, send_ping, close, on_transport_closed}
use chttp.Protocol.Submit.{submit_request}
use chttp.Protocol.Receive.{receive_bytes}
use chttp.Protocol.Lifecycle.{reset}

pub data Call : Type 0 where
  call_start : Call
  call_submit_request : Request → Call
  call_cancel_stream : ℕ → ErrorCode → Call
  call_send_ping : Call
  call_receive_bytes : List ℕ → Call
  call_close : Call
  call_on_transport_closed : Call
  call_reset : Call

module _ (huffman : HuffmanCoder) where
  unfoldable pub perform : Http2Protocol → Call → Option (StepResult × Http2Protocol)
  perform p call_start = some (start p)
  perform p (call_submit_request request) = submit_request huffman p request
  perform p (call_cancel_stream id code) = some (cancel_stream p id code)
  perform p call_send_ping = some (send_ping p)
  perform p (call_receive_bytes bytes) = receive_bytes huffman p bytes
  perform p call_close = some (close p)
  perform p call_on_transport_closed = some (on_transport_closed p)
  perform p call_reset = some (no_result, reset p)

  -- The results of the calls, in their order, and the state after the last, or after the first
  -- whose behaviour is undefined.
  unfoldable pub perform_all : Http2Protocol → List Call → Option (List StepResult × Http2Protocol)
  perform_all p [] = some ([], p)
  perform_all p (call ∷ calls) = do
    (result, p') ← perform p call
    let rest = (do (results, p'') ← perform_all p' calls; some (result ∷ results, p''))
    (if p'.undefined_behavior then some (result ∷ [], p') else rest)
