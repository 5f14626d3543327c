-- ===== src/Flow.antt =====
-- include/chttp2/flow.hpp and src/flow.cpp: the receive window (InFlow) and the send window
-- (OutFlow) of a connection or a stream.
pub mod InFlow
pub mod OutFlow
pub mod Credit
pub mod Send
