-- ===== src/Rows.antt =====
-- rows.go: a result set that the application reads row by row.
pub mod Next
pub mod TypeName
pub mod Steps
pub mod Drain
pub mod Closing
pub mod Failures
pub mod Tests
