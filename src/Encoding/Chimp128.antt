-- ===== src/Encoding/Chimp128.antt =====
-- encoding/chimp128.rs: floats as the exclusive or with their predecessor, in four cases by how the
-- significant bits lie to those before.
pub mod Encoder
pub mod Decoder
pub mod Writing
pub mod Code
pub mod Written
pub mod Values
pub mod Read
pub mod RoundTrip
mod Tests
