-- ===== src/Hpack.antt =====
-- src/hpack and include/chttp2/hpack: header compression.
pub mod Table
pub mod VInt
pub mod HuffmanCoder
pub mod Str
pub mod Codec
