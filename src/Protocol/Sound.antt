-- ===== src/Protocol/Sound.antt =====
-- What the state of Http2Protocol (include/chttp2/http2_protocol.hpp) satisfies between two calls.
pub mod Streams
pub mod Status
pub mod Frames
pub mod Outcome
pub mod Data
pub mod Block
pub mod Headers
pub mod Settings
pub mod Defined
pub mod WindowUpdate
pub mod Control
pub mod Receive
pub mod Submit
pub mod Calls
use chttp.Prelude.{
  ℕ, ◌≤◌, ◌<◌, ◌≡◌, ◌⊎◌, [], List, Option, none, some, Bool, true, false, inl, inr, Bool-cases, All,
  length,
}
use chttp.Prelude.Int.{ℤ}
use chttp.Prelude.Map.{Map}
use chttp.HeaderField.{HeaderField}
use chttp.Protocol.Constants.{minimum_max_frame_size, maximum_max_frame_size}
use chttp.Protocol.State.{Http2Protocol, Stream}
use chttp.Protocol.Fail.Closing.{Distinct}
use chttp.Protocol.Response.{get_status_code}

abbrev pub is_some : Option ℤ → Bool
is_some none = false
is_some (some n) = true

-- std::stoi does not throw on the status of the fields.
abbrev pub HasStatus : List HeaderField → Type 0
HasStatus headers = is_some (get_status_code headers) ≡ true

-- A stream of a connection whose next id is `next`.
abbrev pub IsSoundStream : ℕ → Stream → Type 0
IsSoundStream next s =
    (s.request_body_offset ≤ length s.rqst.body) × (s.stream_id < next) × HasStatus s.resp.headers

abbrev pub IsSoundEntry : ℕ → ℕ × Stream → Type 0
IsSoundEntry next (id, s) = (s.stream_id ≡ id) × IsSoundStream next s

abbrev pub IsSoundMap : ℕ → Map ℕ Stream → Type 0
IsSoundMap next streams = Distinct streams × All (IsSoundEntry next) streams

abbrev pub IsLegalSize : ℕ → Type 0
IsLegalSize n = (minimum_max_frame_size ≤ n) × (n ≤ maximum_max_frame_size)

-- The streams' ids are their keys, distinct and below the next id; no offset is past its body and
-- every status can be read; the frame size is within the protocol's bounds; and a closed connection
-- has no stream.
abbrev pub IsSound : Http2Protocol → Type 0
IsSound p =
    IsSoundMap p.next_stream_id p.streams
    × IsLegalSize p.max_frame_size
    × ((p.closed ≡ false) ⊎ (p.streams ≡ []))

-- A statement about the code after a step to the state `p`: the step has come to behaviour that C++
-- leaves undefined, or `P` holds.
abbrev pub OrUndefined : Http2Protocol → Type 0 → Type 0
OrUndefined p P = (p.undefined_behavior ≡ true) ⊎ ((p.undefined_behavior ≡ false) × P)

pub or_undefined : (p : Http2Protocol) {P : Type 0} → P → OrUndefined p P
or_undefined p h = elim (Bool-cases p.undefined_behavior) [ inl t ↦ inl t | inr f ↦ inr (f, h) ]

-- The connection is not closed.
abbrev pub IsReady : Http2Protocol → Type 0
IsReady p =
    IsSoundMap p.next_stream_id p.streams × IsLegalSize p.max_frame_size × (p.closed ≡ false)
