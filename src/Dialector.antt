-- ===== src/Dialector.antt =====
-- dialector/cubrid.go: what the GORM dialector says of CUBRID's types, identifiers and catalog.
pub mod Types
pub mod Setup
pub mod Quote
pub mod Migrator
pub mod Ranges
pub mod Identifiers
pub mod Columns
pub mod Tests
