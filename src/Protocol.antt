-- ===== src/Protocol.antt =====
-- protocol.go: the requests that the driver writes and the responses that it parses.
pub mod Types
pub mod Tables
pub mod Values
pub mod Requests
pub mod Bind
pub mod Responses
pub mod Grammar
pub mod Parsed
pub mod RoundTrip
pub mod Opening
pub mod Failures
pub mod Arguments
pub mod Parameters
pub mod Tests
