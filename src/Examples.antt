-- ===== src/Examples.antt =====
-- Concrete inputs at which the theorems of the other modules apply.
pub mod Flow
pub mod Codec
pub mod Hpack
pub mod Protocol
pub mod Receive
pub mod Settings
pub mod Session
pub mod Connection
