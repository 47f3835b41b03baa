-- ===== src/Packet.antt =====
-- packet.go: the framing header, the packet writer and the packet reader.
pub mod Header
pub mod Writer
pub mod Reader
pub mod Reads
pub mod RoundTrip
pub mod Tests
