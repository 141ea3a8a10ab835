-- ===== src/Util.antt =====
-- The helpers of class Util in src/util.h.
pub mod Sizes
pub mod Text
pub mod Trim
pub mod Processes
pub mod Decimal
