-- ===== src/Protocol.antt =====
-- class Http2Protocol (include/chttp2/http2_protocol.hpp, src/http2_protocol.cpp): the state, the
-- checks of what the peer sends, the settings, the errors and the emission of requests. Bytes go
-- out as a list of serialized frames and what happened as a list of events.
pub mod Constants
pub mod State
pub mod Checks
pub mod Settings
pub mod Fail
pub mod Emit
pub mod Control
pub mod Submit
pub mod Response
pub mod Receive
pub mod Lifecycle
pub mod Calls
pub mod Sound
