-- ===== src/Utils.antt =====
-- kernel/include/utils and kernel/utils: address arithmetic and the bitmap.
pub mod Math
pub mod Bitmap
