-- ===== src/Protocol/Response.antt =====
-- The header blocks of a response and its end: Response::getStatusCode, Stream::expectsNoBody
-- (include/chttp2/response.hpp, stream.hpp), validateResponseHeaderBlock, decodeResponseHeaders and
-- finalizeRemoteStream (src/http2_protocol.cpp). The pointer to the stream is the stream itself,
-- which `store` puts back. `none` is the exception of std::stoi; a `Response` that is moved from is
-- left empty.
use chttp.Prelude.{
  ℕ, ◌+◌, ◌-◌, ◌*◌, ◌/◌, ◌==◌, ltb, leb, List, [], ◌∷◌, ◌++◌, Option, none, some, Bool, true, false,
  not, ◌&&◌, ◌||◌, if◌then◌else◌, length, codes, bytes_eq, ◌>>=◌,
}
use chttp.Prelude.Int.{ℤ, pos, negsuc, int32_max, int32_min, ltb_ℤ, sub_ℕ}
use chttp.Prelude.Map.{assign, erase}
use chttp.HeaderField.{HeaderField}
use chttp.Hpack.HuffmanCoder.{HuffmanCoder}
use chttp.Hpack.Codec.{decode}
use chttp.Protocol.Constants.{
  ErrorCode, no_error, protocol_error, compression_error, enhance_your_calm,
  state_half_closed_remote,
}
use chttp.Protocol.State.{
  Http2Protocol, Stream, Response, StepResult, has_method, merge_step_result, append_event,
  stream_headers_received, response_completed, stream_closed,
}
use chttp.Protocol.Checks.{
  has_invalid_field_name_char, has_invalid_field_value, is_connection_specific_header,
  equals_ignore_case_ascii, header_list_size, is_digit, any_of, try_parse_status_code,
  try_parse_content_length,
}
use chttp.Protocol.Fail.{fail_stream}

-- std::stoi: blanks and a sign are skipped, the digits up to the first other character are the
-- number, and it throws where there is no digit or the number is not an int.
digits_prefix : ℕ → List ℕ → ℕ
digits_prefix n [] = n
digits_prefix n (c ∷ s) =
    let rest = digits_prefix (n * 10 + (c - 0x30)) s in if is_digit c then rest else n

abbrev in_int : ℤ → Option ℤ
in_int z = if ltb_ℤ int32_max z || ltb_ℤ z int32_min then none else some z

signed_digits : Bool → List ℕ → Option ℤ
signed_digits negative [] = none
signed_digits negative (c ∷ s) =
    if is_digit c
    then in_int
        (if negative then sub_ℕ 0 (digits_prefix 0 (c ∷ s)) else pos (digits_prefix 0 (c ∷ s)))
    else none

is_space : ℕ → Bool
is_space c = c == 0x20 || (leb 0x09 c && leb c 0x0d)

unfoldable pub stoi : List ℕ → Option ℤ
unfolding digits_prefix signed_digits is_space
stoi [] = none
stoi (c ∷ s) =
    let rest = stoi s in
    if is_space c
    then rest
    else if c == 0x2d
    then signed_digits true s
    else if c == 0x2b
    then signed_digits false s
    else signed_digits false (c ∷ s)

unfoldable pub get_status_code : List HeaderField → Option ℤ
get_status_code [] = some (negsuc 0)
get_status_code (h ∷ headers) =
    let rest = get_status_code headers in
    if bytes_eq h.name (codes ":status") then stoi h.value else rest

is_status : ℤ → ℕ → Bool
is_status (pos n) code = n == code
is_status (negsuc n) code = false

-- Stream::expectsNoBody.
unfoldable pub expects_no_body : Stream → Option Bool
unfolding is_status
expects_no_body s = do
  status ← get_status_code s.resp.headers
  some (s.is_head_request || (is_status status 204 || is_status status 304))

-- `streams[stream->streamId]` is the stream that the pointer leads to.
abbrev pub store : Http2Protocol → Stream → Http2Protocol
store p s = record p { streams = assign ◌==◌ s.stream_id s p.streams }

-- The local variables of validateResponseHeaderBlock, and the member that it writes.
pub record Scan : Type 0 where
  pub saw_regular_header : Bool
  pub saw_status : Bool
  pub status_code : ℕ
  pub expected_content_length : ℤ

abbrev pub begins_with_colon : List ℕ → Bool
begins_with_colon [] = false
begins_with_colon (c ∷ name) = c == 0x3a

-- An earlier content-length that is another.
abbrev pub contradicts : ℤ → ℕ → Bool
contradicts (pos n) m = not (n == m)
contradicts (negsuc n) m = false

unfoldable pub scan_status : Scan → Option ℕ → ErrorCode × Scan
scan_status scan none = (protocol_error, scan)
scan_status scan (some code) = (no_error, record scan { saw_status = true; status_code = code })

unfoldable pub scan_pseudo : Bool → Scan → HeaderField → ErrorCode × Scan
unfolding scan_status
scan_pseudo final scan h =
    if scan.saw_regular_header
    then (protocol_error, scan)
    else if final
    then (protocol_error, scan)
    else if not (bytes_eq h.name (codes ":status"))
    then (protocol_error, scan)
    else if scan.saw_status
    then (protocol_error, scan)
    else scan_status scan (try_parse_status_code h.value)

scan_length : Scan → Option ℕ → ErrorCode × Scan
scan_length scan none = (protocol_error, scan)
scan_length scan (some n) =
    if contradicts scan.expected_content_length n
    then (protocol_error, scan)
    else (no_error, record scan { expected_content_length = pos n })

unfoldable pub scan_regular : Bool → Scan → HeaderField → ErrorCode × Scan
unfolding scan_length
scan_regular final scan h =
    if any_of (λ c. c == 0x3a) h.name
    then (protocol_error, scan)
    else if not final && equals_ignore_case_ascii h.name (codes "content-length")
    then scan_length scan (try_parse_content_length h.value)
    else (no_error, scan)

-- One round of the loop.
unfoldable pub scan_header : Bool → Scan → HeaderField → ErrorCode × Scan
scan_header final scan h =
    if length h.name == 0 || has_invalid_field_name_char h.name
    then (protocol_error, scan)
    else if has_invalid_field_value h.value
    then (protocol_error, scan)
    else if is_connection_specific_header h
    then (protocol_error, scan)
    else if begins_with_colon h.name
    then scan_pseudo final scan h
    else scan_regular final (record scan { saw_regular_header = true }) h

unfoldable pub scan_headers : Bool → Scan → List HeaderField → ErrorCode × Scan
scan_headers final scan [] = (no_error, scan)
scan_headers final scan (h ∷ headers) =
    let (code, scan') = scan_header final scan h in
    let rest = scan_headers final scan' headers in if code == no_error then rest else (code, scan')

-- After the loop: the code, and whether the block is informational.
unfoldable pub conclude : Bool → Bool → Scan → ErrorCode × Bool
conclude final end_stream scan =
    if not final
    then if not scan.saw_status
      then (protocol_error, false)
      else if scan.status_code / 100 == 1
      then if scan.status_code == 101
        then (protocol_error, false)
        else if end_stream
        then (protocol_error, false)
        else (no_error, true)
      else (no_error, false)
    else if scan.saw_status
    then (protocol_error, false)
    else if not end_stream
    then (protocol_error, false)
    else (no_error, false)

-- validateResponseHeaderBlock: the code, whether the block is informational, and the stream.
unfoldable pub validate_response_header_block :
    Stream → List HeaderField → Bool → ErrorCode × Bool × Stream
validate_response_header_block s headers end_stream =
    let start : Scan = record {
      saw_regular_header = false;
      saw_status = false;
      status_code = 0;
      expected_content_length = s.expected_content_length;
    } in
    let (code, scan) = scan_headers s.final_response_headers_received start headers in
    let (code', informational) = conclude s.final_response_headers_received end_stream scan in
    let s' = record s { expected_content_length = scan.expected_content_length } in
    if length headers == 0
    then (protocol_error, false, s)
    else if not (code == no_error)
    then (code, false, s')
    else (code', informational, s')

-- Whether the Content-Length is there and contradicts what was received.
unfoldable pub length_mismatch : Stream → Option Bool
length_mismatch s = elim s.expected_content_length [
  | pos n ↦ (do
    no_body ← expects_no_body s
    some (not no_body && not (s.received_content_length == n)))
  | negsuc n ↦ some false
]

complete_response : Http2Protocol → Stream → StepResult → StepResult × Http2Protocol
complete_response p s result =
    let empty : Response = record { headers = []; trailers = []; body = [] } in
    let s' = record s { response_complete = true; resp = empty } in
    let result' = append_event result (response_completed s.stream_id s.resp) in
    if s.local_end_stream_sent
    then (
      append_event result' (stream_closed s.stream_id no_error),
      record p { streams = erase ◌==◌ s.stream_id p.streams },
    )
    else (result', store p (record s' { stream_state = state_half_closed_remote }))

unfoldable pub finalize_remote_stream :
    Http2Protocol → Stream → StepResult → Option (StepResult × Http2Protocol)
unfolding complete_response
finalize_remote_stream p s result = do
  let s' : Stream = record s { remote_end_stream_received = true }
  mismatch ← length_mismatch s'
  let (failed, p') = fail_stream (store p s') s.stream_id protocol_error true
  some (if mismatch then (merge_step_result result failed, p') else complete_response p s' result)

-- The fields of a block that is valid and not informational, on the stream; `none` is trailers
-- after CONNECT.
unfoldable pub add_headers : Stream → List HeaderField → Option Stream
add_headers s headers =
    if not s.final_response_headers_received
    then some (record s {
      resp = record (s.resp) { headers = s.resp.headers ++ headers };
      final_response_headers_received = true;
    })
    else if has_method s.rqst (codes "CONNECT")
    then none
    else some (record s {
      resp = record (s.resp) { trailers = s.resp.trailers ++ headers };
      trailing_headers_received = true;
    })

-- What a step that ends in an ErrorCode gives.
abbrev pub Coded : Type 0
Coded = Option (ErrorCode × StepResult × Http2Protocol)

unfoldable pub received : Http2Protocol → Stream → Bool → StepResult → Coded
received p s end_stream result = do
  let result' = append_event result (stream_headers_received s.stream_id s.resp)
  (result'', p') ←
      (if end_stream then finalize_remote_stream p s result' else some (result', store p s))
  some (no_error, result'', p')

-- A block that was decoded and is within the limit, `s` without the bytes of it.
unfoldable pub accept_headers :
    Http2Protocol → Stream → List HeaderField → Bool → StepResult → Coded
unfolding received
accept_headers p s headers end_stream result =
    let (code, informational, s') = validate_response_header_block s headers end_stream in
    let response : Response = record { headers = headers; trailers = []; body = [] } in
    if not (code == no_error)
    then some (code, result, store p s')
    else if informational
    then some
        (no_error, append_event result (stream_headers_received s'.stream_id response), store p s')
    else elim (add_headers s' headers) [
      | none ↦ some (protocol_error, result, store p s')
      | some s'' ↦ received p s'' end_stream result
    ]

module _ (huffman : HuffmanCoder) where
  unfoldable pub decode_response_headers : Http2Protocol → Stream → Bool → StepResult → Coded
  decode_response_headers p s end_stream result =
      let (hpack, decoded) = decode huffman p.hpack s.pending_header_block in
      let p' : Http2Protocol = record p { hpack = hpack } in
      elim decoded [
        | none ↦ some (compression_error, result, store p' s)
        | some headers ↦
            if ltb 0 p.max_header_list_size && ltb p.max_header_list_size (header_list_size headers)
            then some (enhance_your_calm, result, store p' s)
            else accept_headers p'
                (record s {
                  pending_header_block = [];
                  waiting_for_continuation = false;
                  pending_header_end_stream = false;
                })
                headers end_stream result
      ]
