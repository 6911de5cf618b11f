-- ===== src/Protocol.antt =====
-- include/server_protocol.h and include/fix_size_protocol.h: the interface of a package parser, and
-- the parser that the library brings.
mod Interface
pub mod FixSize
pub use Interface.*
