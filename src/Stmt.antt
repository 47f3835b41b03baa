-- ===== src/Stmt.antt =====
-- stmt.go: prepared statements.
pub mod Execute
pub mod Ownership
pub mod Inserting
pub mod Counts
pub mod Tests
