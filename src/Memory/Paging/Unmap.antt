-- ===== src/Memory/Paging/Unmap.antt =====
-- Unmapping, `unmap` of kernel/arch/x86_64/memory/virtual.cpp.
use ice.Prelude.{ℕ, ◌+◌, ◌*◌, ◌≡◌, arith, store64, true, false, ne→==}
use ice.Memory.Physical.{Pmm}
use ice.Memory.Slab.{ok}
use ice.Memory.Paging.{Pagemap, table_index}
use ice.Memory.Paging.Change.{unmap, unmap_one}
use ice.Memory.Paging.Walk.{HasSizes, Tables, virtual_to_pt_entry_lem}

pub unmap_one-eq :
    (hhdm slabs va : ℕ) (p : Pagemap) (s : Pmm)
    → HasSizes p
    → (t : Tables hhdm s.mem p va)
    → unmap_one hhdm slabs p va s
      ≡ ok true (record s { mem = store64 s.mem (t.pml1 + table_index va 12 * 8) 0 })
unfolding unmap_one
unmap_one-eq hhdm slabs va p s z t = ground (
  arith,
  z.small,
  virtual_to_pt_entry_lem hhdm slabs va p false s z t,
  ne→== (t.pml1 + table_index va 12 * 8) 0 (λ e. t.to_pml1.ne_null (omega arith)),
)

-- Where the tables down to the lowest level are present and the processor has pages of 1 GiB,
-- `unmap` clears the entry of the 4 KiB page and succeeds, whatever `flags` ask for: a page size
-- in them is not used.
pub unmap_lem :
    (hhdm slabs va flags : ℕ) (p : Pagemap) (s : Pmm)
    → HasSizes p
    → (t : Tables hhdm s.mem p va)
    → unmap hhdm slabs true p va flags s
      ≡ ok true (record s { mem = store64 s.mem (t.pml1 + table_index va 12 * 8) 0 })
unfolding unmap
unmap_lem hhdm slabs va flags p s z t = ground (arith, unmap_one-eq hhdm slabs va p s z t)
