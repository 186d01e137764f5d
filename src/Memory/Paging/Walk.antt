-- ===== src/Memory/Paging/Walk.antt =====
-- The walk through the tables of kernel/arch/x86_64/memory/virtual.cpp, where they are present.
use ice.Prelude.{ℕ, ◌+◌, ◌*◌, ◌≡◌, ◌≢◌, arith, Mem, load64, Bool, true, ne→==}
use ice.Utils.Math.{tohh}
use ice.Memory.Physical.{Pmm}
use ice.Memory.Slab.{ok}
use ice.Memory.Paging.{Pagemap, get_next_lvl, virtual_to_pt_entry, table_index, kib4, mib2, gib1}
use ice.Memory.Paging.Entry.{has_flags, get_address}
use ice.Memory.Paging.Entry.Arch

-- The sizes that the constructor gives.
pub record HasSizes (p : Pagemap) : Type 0 where
  pub small : p.page_size ≡ kib4
  pub large : p.lpage_size ≡ mib2
  pub largest : p.llpage_size ≡ gib1

-- The entry at `slot` is present and leads to `table`.
pub record Leads (hhdm : ℕ) (m : Mem) (slot table : ℕ) : Type 0 where
  pub is_present : has_flags (load64 m slot) Arch.present ≡ true
  pub target : tohh hhdm (get_address (load64 m slot)) ≡ table
  pub ne_null : table ≢ 0

-- The tables on the way to the address's entry in the lowest level.
pub record Tables (hhdm : ℕ) (m : Mem) (p : Pagemap) (va : ℕ) : Type 0 where
  pub pml3 : ℕ
  pub pml2 : ℕ
  pub pml1 : ℕ
  pub top : p.top_level ≢ 0
  pub to_pml3 : Leads hhdm m (p.top_level + table_index va 39 * 8) pml3
  pub to_pml2 : Leads hhdm m (pml3 + table_index va 30 * 8) pml2
  pub to_pml1 : Leads hhdm m (pml2 + table_index va 21 * 8) pml1

pub get_next_lvl-Leads :
    (hhdm slabs curr entry table : ℕ) (allocate : Bool) (s : Pmm)
    → curr ≢ 0
    → Leads hhdm s.mem (curr + entry * 8) table
    → get_next_lvl hhdm slabs curr entry allocate s ≡ ok table s
unfolding get_next_lvl
get_next_lvl-Leads hhdm slabs curr entry table allocate s n l =
    rw (ne→== curr 0 n, l.is_present, l.target)

-- Where the tables of an address are present, the walk to its 4 KiB page's entry gives the entry's
-- address and changes nothing, whether or not it may allocate.
pub virtual_to_pt_entry_lem :
    (hhdm slabs va : ℕ) (p : Pagemap) (allocate : Bool) (s : Pmm)
    → HasSizes p
    → (t : Tables hhdm s.mem p va)
    → virtual_to_pt_entry hhdm slabs p va allocate kib4 s ≡ ok (t.pml1 + table_index va 12 * 8) s
unfolding virtual_to_pt_entry
virtual_to_pt_entry_lem hhdm slabs va p allocate s z t = ground (
  arith,
  ne→== p.top_level 0 t.top,
  get_next_lvl-Leads hhdm slabs p.top_level (table_index va 39) t.pml3 allocate s t.top t.to_pml3,
  ne→== t.pml3 0 t.to_pml3.ne_null,
  ne→== kib4 p.llpage_size (omega (arith, z.largest)),
  get_next_lvl-Leads hhdm slabs t.pml3 (table_index va 30) t.pml2 allocate s t.to_pml3.ne_null
      t.to_pml2,
  ne→== t.pml2 0 t.to_pml2.ne_null,
  ne→== kib4 p.lpage_size (omega (arith, z.large)),
  get_next_lvl-Leads hhdm slabs t.pml2 (table_index va 21) t.pml1 allocate s t.to_pml2.ne_null
      t.to_pml1,
  ne→== t.pml1 0 t.to_pml1.ne_null,
)
