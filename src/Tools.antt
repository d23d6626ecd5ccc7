-- ===== src/Tools.antt =====
-- The helpers of src/tools.cpp, one child for each group.
pub mod Chars
pub mod Trim
pub mod Items
pub mod Values
pub mod Coordinate
pub mod Decimal
pub mod Clock
pub mod ExeDir
pub mod Unicode
pub mod Checksum
mod Examples
