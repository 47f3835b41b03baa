-- ===== src/Conn.antt =====
-- conn.go: the connection's low-level I/O and the helpers that statements and rows call.
pub mod Socket
pub mod Helpers
pub mod Framing
pub mod InsertId
pub mod Handshake
pub mod Opening
pub mod Session
pub mod Transactions
pub mod Releases
pub mod Tests
