-- ===== src/Context.antt =====
-- conn.go: the methods of the connection that take a context.
pub mod Deadline
pub mod Query
pub mod Success
pub mod Cancelled
pub mod Reading
pub mod Tests
