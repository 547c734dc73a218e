-- ===== src/Protocol.antt =====
-- src/protocol.rs: the MySQL wire protocol. A buffer (`BytesMut`, `Bytes`) is the list of its bytes,
-- and a function that writes to a buffer returns the longer one.
pub mod Packet
pub mod Lenenc
pub mod Response
pub mod Batch
pub mod Handshake
pub mod Command
pub mod Params
mod Tests
