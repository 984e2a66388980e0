-- ===== src/Protocol.antt =====
-- protocol/: the Fastpass Control Protocol that endpoints and arbiter speak.
pub mod Platform
pub mod BitArray
pub mod Window
pub mod Checksum
pub mod Conn
pub mod Pacer
pub mod Tests
