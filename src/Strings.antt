-- ===== src/Strings.antt =====
-- Laws of the `str` methods that the program calls.
pub mod Trim
pub mod Split
pub mod Unicode
pub mod Tables
pub mod Pieces
pub mod Decimal
