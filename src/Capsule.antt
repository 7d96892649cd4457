-- ===== src/Capsule.antt =====
-- src/capsule.c: QUIC variable-length integers, the DATAGRAM capsule reader of the client's side
-- and the capsule writer of the other.
pub mod Varint
pub mod Datagram
pub mod Downstream
pub mod Upstream
pub mod Header
mod Tests
