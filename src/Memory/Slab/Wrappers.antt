-- ===== src/Memory/Slab/Wrappers.antt =====
-- The C functions of kernel/libs/libc/stdlib.cpp and the C++ operators of kernel/memory/memory.cpp
-- that call the heap.
use ice.Prelude.{ℕ}
use ice.Memory.Physical.{Pmm}
use ice.Memory.Slab.{Run}
use ice.Memory.Slab

module _ (hhdm_offset slabs : ℕ) where
  abbrev pub stdlib_malloc : ℕ → Pmm → Run ℕ
  stdlib_malloc size = Slab.malloc hhdm_offset slabs size

  abbrev pub stdlib_free : ℕ → Pmm → Run (Unit {0})
  stdlib_free ptr = Slab.free hhdm_offset ptr

  abbrev pub stdlib_realloc : ℕ → ℕ → Pmm → Run ℕ
  stdlib_realloc ptr size = Slab.realloc hhdm_offset slabs ptr size

  abbrev pub stdlib_calloc : ℕ → ℕ → Pmm → Run ℕ
  stdlib_calloc num size = Slab.calloc hhdm_offset slabs num size

  -- The four operators `new`; an alignment that is asked for is not used.
  abbrev pub operator_new : ℕ → Pmm → Run ℕ
  operator_new size = stdlib_malloc size

  -- The six operators `delete`; a size or an alignment is not used.
  abbrev pub operator_delete : ℕ → Pmm → Run (Unit {0})
  operator_delete ptr = stdlib_free ptr
