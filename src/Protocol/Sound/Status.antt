-- ===== src/Protocol/Sound/Status.antt =====
-- The status of a response can always be read: std::stoi does not throw on the fields that
-- validateResponseHeaderBlock lets through (src/http2_protocol.cpp, include/chttp2/response.hpp).
use chttp.Prelude.{
  ℕ, ◌≤◌, ◌==◌, ◌≡◌, refl, List, [], ◌∷◌, ◌++◌, some, Bool, true, false, inl, inr, Bool-cases,
  Option-cases, arith, bytes_eq, codes,
}
use chttp.Prelude.Int.{pos}
use chttp.HeaderField.{HeaderField}
use chttp.Protocol.Constants.{no_error}
use chttp.Protocol.State.{Stream}
use chttp.Protocol.Checks.{try_parse_status_code, is_digit}
use chttp.Protocol.Checks.Status.{status_text, try_parse_status_code_exact}
use chttp.Protocol.Response.{
  stoi, get_status_code, Scan, begins_with_colon, scan_pseudo, scan_header, scan_headers,
  validate_response_header_block,
}
use chttp.Protocol.Sound.{HasStatus, is_some}

-- std::stoi reads the three digits of a status code.
pub stoi-status_text : (n : ℕ) → 100 ≤ n → n ≤ 599 → stoi (status_text n) ≡ some (pos n)
unfolding stoi is_digit
stoi-status_text n low high = ground arith

parsed : (value : List ℕ) (n : ℕ) → try_parse_status_code value ≡ some n → stoi value ≡ some (pos n)
parsed value n e =
    let (low, high, text) = (try_parse_status_code_exact value n).0 e in
    rw text (stoi-status_text n low high)

get_status_code-first :
    (h : HeaderField) (headers : List HeaderField)
    → bytes_eq h.name (codes ":status") ≡ true
    → get_status_code (h ∷ headers) ≡ stoi h.value
unfolding get_status_code
get_status_code-first h headers e = rw e refl

get_status_code-next :
    (h : HeaderField) (headers : List HeaderField)
    → bytes_eq h.name (codes ":status") ≡ false
    → get_status_code (h ∷ headers) ≡ get_status_code headers
unfolding get_status_code
get_status_code-next h headers e = rw e refl

pub HasStatus-append :
    (xs ys : List HeaderField) → HasStatus xs → HasStatus ys → HasStatus (xs ++ ys)
HasStatus-append [] ys hx hy = hy
HasStatus-append (h ∷ xs) ys hx hy = elim (Bool-cases (bytes_eq h.name (codes ":status"))) [
  | inl t ↦ rw (get_status_code-first h (xs ++ ys) t) (rw (get_status_code-first h xs t) at hx)
  | inr f ↦
      rw (get_status_code-next h (xs ++ ys) f)
        (HasStatus-append xs ys (rw (get_status_code-next h xs f) at hx) hy)
]

status_begins :
    (name : List ℕ) → bytes_eq name (codes ":status") ≡ true → begins_with_colon name ≡ true
unfolding bytes_eq codes
status_begins [] e = ground arith
status_begins (c ∷ name) e = ground arith

-- A :status field that a round of the loop lets through has three digits.
scan_pseudo-parsed :
    (scan : Scan) (h : HeaderField)
    → bytes_eq h.name (codes ":status") ≡ true
    → (scan_pseudo false scan h).0 ≡ no_error
    → is_some (stoi h.value) ≡ true
unfolding scan_pseudo
scan_pseudo-parsed scan h t ok = elim (Option-cases (try_parse_status_code h.value)) [
  | inl e ↦ ground arith
  | inr (n, e) ↦ rw (parsed h.value n e) refl
]

scan_header-parsed :
    (scan : Scan) (h : HeaderField)
    → bytes_eq h.name (codes ":status") ≡ true
    → (scan_header false scan h).0 ≡ no_error
    → is_some (stoi h.value) ≡ true
unfolding scan_header
scan_header-parsed scan h t ok =
    let begins = status_begins h.name t in
    let pseudo : (scan_pseudo false scan h).0 ≡ no_error = ground arith in
    scan_pseudo-parsed scan h t pseudo

scan_headers-HasStatus :
    (headers : List HeaderField) (scan : Scan)
    → (scan_headers false scan headers).0 ≡ no_error
    → HasStatus headers
unfolding scan_headers get_status_code
scan_headers-HasStatus [] scan ok = refl
scan_headers-HasStatus (h ∷ headers) scan ok =
    elim (Bool-cases ((scan_header false scan h).0 == no_error)) [
      | inr f ↦ absurd (ground arith)
      | inl t ↦ elim (Bool-cases (bytes_eq h.name (codes ":status"))) [
        | inl s ↦
            rw (get_status_code-first h headers s) (scan_header-parsed scan h s (ground arith))
        | inr s ↦
            rw (get_status_code-next h headers s)
              (scan_headers-HasStatus headers (scan_header false scan h).1 (rw t at ok))
      ]
    ]

-- Where the final response headers were not received before, and validateResponseHeaderBlock accepts
-- the block, std::stoi does not throw on the :status of its fields: getStatusCode gives a number.
pub validate_response_header_block-HasStatus :
    (s : Stream) (headers : List HeaderField) (end_stream : Bool)
    → s.final_response_headers_received ≡ false
    → (validate_response_header_block s headers end_stream).0 ≡ no_error
    → HasStatus headers
unfolding validate_response_header_block
validate_response_header_block-HasStatus s headers end_stream e ok =
    let start : Scan = record {
      saw_regular_header = false;
      saw_status = false;
      status_code = 0;
      expected_content_length = s.expected_content_length;
    } in
    scan_headers-HasStatus headers start (ground arith)
