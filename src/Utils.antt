-- ===== src/Utils.antt =====
-- utils/: the rounding helpers of math.rs and the bitmap of bitmap.rs.
pub mod Math
pub mod Bitmap
