-- ===== src/Protocol/Parsed.antt =====
-- The parsers of protocol.go on responses that follow the grammar.
pub mod Tables
pub mod Values
pub mod Rows
pub mod Responses
