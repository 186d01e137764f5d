-- ===== src/Cxx.antt =====
-- The kernel's own C++ library, kernel/include/libs/libc++.
pub mod Pointer
pub mod Vector
