-- ===== src/Frame.antt =====
-- include/chttp2/frame.hpp, src/frame.cpp and the frame numbers of
-- include/chttp2/http2_constants.hpp: a module for each frame type. The enums FrameType and
-- ErrorCode are numbers, since the code casts any byte or word to them.
pub mod Header
pub mod HeaderRoundTrip
pub mod Raw
pub mod DataFrame
pub mod HeadersFrame
pub mod RstStreamFrame
pub mod SettingFrame
pub mod PushPromiseFrame
pub mod PingFrame
pub mod GoAwayFrame
pub mod WindowUpdateFrame
pub mod ContinuationFrame
pub mod RoundTrip
