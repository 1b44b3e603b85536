-- ===== src/Utils.antt =====
-- The packages below utils.
pub mod Bitmap
pub mod Bits
pub mod Fast
pub mod Cser
