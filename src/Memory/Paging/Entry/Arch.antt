-- ===== src/Memory/Paging/Entry/Arch.antt =====
-- The processor's bits: the enum of kernel/arch/x86_64/memory/virtual.cpp.
use ice.Prelude.{ℕ, ◌^◌}

abbrev pub present : ℕ
present = 1

abbrev pub write : ℕ
write = 2

abbrev pub user_super : ℕ
user_super = 4

abbrev pub write_through : ℕ
write_through = 8

abbrev pub cache_disable : ℕ
cache_disable = 16

abbrev pub larger_pages : ℕ
larger_pages = 128

abbrev pub pat4k : ℕ
pat4k = 128

abbrev pub global : ℕ
global = 256

abbrev pub patlg : ℕ
patlg = 4096

abbrev pub no_exec : ℕ
no_exec = 2 ^ 63
