-- ===== src/Kernel.antt =====
-- `_start` of kernel/kernel.cpp: the parts that keep state in memory, in order. The boot loader's
-- answers are arguments. The terminal, the descriptor tables and the messages come before and after.
use ice.Prelude.{ℕ, Bool, List, Mem}
use ice.Memory.Physical.Init
use ice.Memory.Physical.Init.{Entry}
use ice.Memory.Slab.{Run, ◌>>=◌, construct}
use ice.Memory.Paging.{Pagemap}
use ice.Memory.Paging.Start.{KernelFile, start}

-- The page allocator's `init` ends with the start of the heap; paging reads the memory map as it
-- left it. The result has the kernel's page map, with the value of cr3.
unfoldable pub kernel_start : ℕ → ℕ → Bool → List Entry → KernelFile → Mem → Run (Pagemap × ℕ)
kernel_start hhdm_offset slabs gib1_pages memmap file m =
    let booted = Init.init hhdm_offset memmap (Init.boot m) in
    (construct hhdm_offset slabs >>= λ made. start hhdm_offset slabs gib1_pages booted.0 file)
      booted.1
