-- ===== src/Wire.antt =====
-- core/protocol.c and core/protocol.h: the codec of the messages between the clients and the server.
pub mod Message
pub mod Writer
pub mod Encode
pub mod Reader
pub mod Decode
pub mod Payload
pub mod Frame
pub mod Reads
pub mod RoundTrip
pub mod Stays
pub mod InFrame
pub mod Stream
mod Tests
