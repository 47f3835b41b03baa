-- ===== src/Driver.antt =====
-- driver.go: data source names and Open.
pub mod Dsn
pub mod Config
pub mod Accepted
pub mod Open
pub mod Opens
pub mod Tests
