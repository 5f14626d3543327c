-- ===== src/Lib.antt =====
-- chttp2 is a client for HTTP/2 in C++. These modules model the part of it that turns requests into
-- bytes and bytes into events, and prove what makes it correct.
--
-- The parts, and the files that model them (paths from the repository's root):
-- * Flow/InFlow and Flow/OutFlow are the flow-control windows of src/flow.cpp. The pointer from a
--   stream's send window to the connection's is an argument.
-- * Bytes is what the frames use of ByteBuffer and ByteSpan (include/chttp2/byte_buffer.hpp and
--   byte_span.hpp): a buffer is the list of its bytes, and a read out of range is `none`.
-- * Frame and its children are the frames of src/frame.cpp, one file for each type: the constructor
--   from a raw frame is `of_raw`, toBytes is `to_bytes`. FrameCodec is src/frame_codec.cpp.
-- * HeaderField is include/chttp2/header_field.hpp. Hpack/Table is src/hpack/table.cpp with its three
--   static tables; Hpack/VInt, Hpack/Str and Hpack/Codec are src/hpack/hpack.cpp. The Huffman coder
--   (src/hpack/huffman.cpp) is a parameter, Hpack/HuffmanCoder, with its contract.
-- * Protocol is class Http2Protocol (include/chttp2/http2_protocol.hpp, src/http2_protocol.cpp):
--   Protocol/State has the data, Checks what is tested of the peer's frames, Settings the settings,
--   Fail the failures, Emit the frames of a request, Submit submitRequest, Response the header blocks
--   of a response and its end, Receive the handlers of the frames and receiveBytes, Control the other
--   operations that the owner of the connection calls, Lifecycle the constructors and reset, Calls a
--   sequence of calls. Protocol/Sound is what every call keeps of the state.
-- * Session is class Http2Session (include/chttp2/http2_session.hpp, src/http2_session.cpp): Session
--   has the state, the translation of events and the failures, Session/Requests what submits, reads
--   and writes; its other children follow the requests that wait and the bytes that are written. The
--   transport is an argument: the results of its reads and writes, in their order.
-- * Connection is class Connection (include/chttp2/connection.hpp, src/connection.cpp), which owns a
--   session, with the ids of the reactor's timers (src/reactor.cpp). What it asks of the reactor and
--   of its owner's handlers is a list of effects.
-- Prelude has the shared names, lists, integers and maps; Examples has concrete inputs.
--
-- The connection calls the session, the session calls the protocol, which calls the windows, the
-- frames and the header compression as the code does. State is passed on explicitly: an operation
-- gives its result and the state after it. Members keep their names in snake_case; the source's
-- `data` is `body`. An exception is `none`. Strings are lists of bytes, a machine integer is the
-- number that it stands for, and a std::unordered_map is an association list, iterated in its order.
--
-- Where the code does what C++ leaves undefined, the model sets the flag `undefined_behavior` of the
-- protocol's state, which is no member of the class, and says nothing of the code from there on; the
-- loops over streams, frames, reads and calls stop. That is in two places of the peer's settings: the loop of processSettingFrame
-- erases the stream that it stands at, or the difference of two window sizes is no int.
--
-- A ByteBuffer and a ByteSpan count their bytes in 32 bits. The definitions translate the code for
-- buffers of fewer than 2^32 bytes.
--
-- Fuel: a varint reads its own bytes; a header block, a payload of settings and a popping loop have
-- the length of their bytes, of which each round takes one at least; the emission of a header block
-- and of a request's body have the length of what is left, and the theorems of Protocol/Emit show
-- that this is enough where a frame may have one byte. The loop of receiveBytes has the length of the
-- received bytes, which Protocol/Sound/Receive shows to be enough.
--
-- Not modelled: the Huffman code tables, the connection manager, the reactor's loop, connector,
-- transport, client and dispatcher, which are about threads, timers and sockets. The growth of a
-- buffer's allocation and the log lines are left out. The session's contexts are values: what other
-- threads do to a shared context is not followed.
pub mod Prelude
pub mod Flow
pub mod Bytes
pub mod Frame
pub mod FrameCodec
pub mod HeaderField
pub mod Hpack
pub mod Protocol
pub mod Session
pub mod Connection
pub mod Examples
