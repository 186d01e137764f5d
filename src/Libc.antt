-- ===== src/Libc.antt =====
-- kernel/libs/libc: the C library routines that the kernel implements itself.
pub mod String
pub mod Ctype
pub mod Stdlib
