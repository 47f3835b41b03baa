-- ===== src/Sql.antt =====
-- types.go: placeholders, literals and their interpolation into SQL text.
pub mod Scanner
pub mod Literal
pub mod Interpolate
pub mod Pass
pub mod Cuts
pub mod Substitute
pub mod Positions
pub mod Escapes
pub mod Inert
pub mod Tests
