-- ===== src/Memory/Paging/Entry/Flag.antt =====
-- `enum flags` of kernel/include/memory/virtual.hpp.
use ice.Prelude.{ℕ}

abbrev pub read : ℕ
read = 1

abbrev pub write : ℕ
write = 2

abbrev pub rw_flags : ℕ
rw_flags = 3

abbrev pub exec : ℕ
exec = 4

abbrev pub rwx : ℕ
rwx = 7

abbrev pub user : ℕ
user = 8

abbrev pub global : ℕ
global = 16

abbrev pub lpage : ℕ
lpage = 32

abbrev pub llpage : ℕ
llpage = 64
