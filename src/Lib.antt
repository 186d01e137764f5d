-- ===== src/Lib.antt =====
-- Models of the Ice kernel, a C++ kernel for x86-64 that the Limine boot loader starts.
--
-- The parts and how they interact:
--   kernel/utils and kernel/include/utils: a bitmap over bytes, and arithmetic on addresses
--     (Utils.Math, Utils.Bitmap).
--   kernel/libs/libc: strings, character classes and conversions (Libc.String, Libc.Ctype,
--     Libc.Stdlib). The allocators clear and copy memory with its memset and memcpy.
--   kernel/memory/physical.cpp: pages, one bit each in a bitmap that lies in the memory it manages
--     (Memory.Physical, with Scan, Alloc, Retry, Free and Use for `alloc` and `free`, Init for the
--     boot loader's memory map, with Place and Valid for the state that it leaves, and History for
--     sequences of calls of `alloc` and `free`).
--   kernel/memory/memory.cpp: the heap, ten slabs of small objects and blocks of whole pages, which
--     takes pages from the page allocator (Memory.Slab, with Layout, Fill, Init, FreeList, Classes and
--     Roundtrip for objects, Big and Pages for blocks, Realloc for both, History for sequences of
--     calls on one slab, Wrappers for the C and C++ names).
--   kernel/arch/x86_64/memory/virtual.cpp and kernel/include/memory/virtual.hpp: page tables, which
--     come from the heap (Memory.Paging, with Entry and Index for words and indices, Walk,
--     Translate, Change, Effects, Remap and Unmap for mappings, Large for pages of 2 MiB, Missing for
--     addresses without a mapping, Grow and Fresh for tables that are made on the way,
--     Returns for the functions that never panic, Lifetime for the start and end of a page map).
--   kernel/memory/virtual.cpp: the kernel's own page map (Memory.Paging.Start).
--   kernel/memory/memmap.cpp: the ranges of a page map (Memory.Ranges, with Lookup, Fork,
--     and Destructor for the end).
--   kernel/arch/x86_64/gdt, idt and cpu: descriptors, dispatch of interrupts, the interrupt
--     controllers and the processor's features (Cpu.Gdt, Cpu.Idt, Cpu.Pic, Cpu.Processor).
--   kernel/drivers/graphics/terminal.cpp: text on the boot loader's terminals (Terminal, with
--     Cursor for the moves of the cursor).
--   kernel/include/libs/libc++/vector and memory: vectors (Cxx.Vector, with Ranges for what it does
--     with several objects), shared and weak pointers (Cxx.Pointer, with Shared and Weak, and History
--     for sequences of their operations).
--   kernel/sys: messages and panics (Sys.Logger, Sys.Panic).
--   kernel/kernel.cpp: the order in which the parts start (Kernel).
--   Prelude has the shared names, Boolean tests, binary digits, integers and byte-addressed memory.
--   Tests has runs on concrete inputs.
--
-- State. A memory is a function from addresses to bytes, and a pointer is an address; words are
-- stored in it byte by byte, the lowest first. The static variables of the page allocator and the
-- memory are one record, `Pmm`, which the heap and the page tables pass on: `Run A` gives a value
-- and the new state, or stands for a panic or a failed assert. So a list of free objects, a page
-- table and the allocator's bitmap lie in one memory, and theorems say what they have to lie apart
-- from. A definition has the name of the function that it models; one that models a lambda or a
-- loop inside a function says so.
--
-- Numbers. Words wrap around at 2 ^ 64, or where the code cuts them: the bitmap's `get` cuts the
-- number of a byte to 8 bits, its `set` to 16. Signed numbers of stdlib.cpp are exact.
--
-- Loops. A counted loop recurs on the rounds that are left. A loop over a text takes fuel and gives
-- `none` without; its theorem asks for more fuel than the text has characters, and a search for a
-- pattern of k characters in n for (n + 1) * (k + 1), since each place costs at most k rounds and
-- one for the next. `strrev` of the empty string has 2 ^ 63 rounds, and so more fuel. The digits of
-- `next_pow2` have fuel for 64, those of `printi` for 11. The destructor's loop has any fuel, the one
-- that moves a vector's objects one more than there are.
--
-- Parameters: the direct map's offset `hhdm_offset`, the address of the heap's slabs, what `cpuid`
-- answers and so whether the processor has pages of 1 GiB, what a port gives when it is read, the
-- boot loader's answers; for a vector, whether the heap has memory for a new block (`heap_finds` is
-- what the modelled heap answers).
--
-- Not modelled: kernel/libs/libc/stdio.cpp and kernel/include/limine.h, copies of other projects;
-- the headers under kernel/include/libs/libc++ other than vector and memory, and there the casts and
-- `unique_ptr`; what the heap stores for the vectors and shared pointers of the ranges; other
-- threads; assembly.
--
-- Names: hhdm is the direct map, pmlN the table of a level, pa and va a physical and a virtual
-- address.
pub mod Prelude
pub mod Utils
pub mod Libc
pub mod Memory
pub mod Cpu
pub mod Cxx
pub mod Sys
pub mod Kernel
pub mod Terminal
pub mod Tests
