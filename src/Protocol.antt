-- ===== src/Protocol.antt =====
-- src/protocol: the wire codec.
pub mod Crc
pub mod Opcode
pub mod Command
pub mod Frame
