-- ===== src/Messages.antt =====
-- The messages of the protocol: how they are written to bytes and read back.
pub mod Msgpack
pub mod Parsed
pub mod Parse
pub mod Serialize
pub mod RoundTrip
pub mod MessageParser
