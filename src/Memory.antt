-- ===== src/Memory.antt =====
-- kernel/memory and kernel/arch/x86_64/memory: pages, the kernel's heap and the page tables.
pub mod Physical
pub mod Slab
pub mod Paging
pub mod Ranges
