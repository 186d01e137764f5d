-- ===== src/Memory/Paging/Missing.antt =====
-- Addresses without a mapping, in kernel/arch/x86_64/memory/virtual.cpp: what the operations answer.
use ice.Prelude.{ℕ, ◌+◌, ◌*◌, ◌≡◌, ◌≢◌, refl, arith, Mem, load64, Bool, false, ne→==}
use ice.Memory.Physical.{Pmm}
use ice.Memory.Slab.{ok}
use ice.Memory.Paging.{
  Pagemap, get_next_lvl, virtual_to_pt_entry, virtual_to_physical, table_index, get_page_size, kib4,
  invalid_addr, map,
}
use ice.Memory.Paging.Entry.{has_flags, Caching}
use ice.Memory.Paging.Entry.Arch
use ice.Memory.Paging.Entry.Flag
use ice.Memory.Paging.Change.{unmap, unmap_one, remap}
use ice.Memory.Paging.Walk.{HasSizes, Leads, get_next_lvl-Leads}
use ice.Memory.Paging.Translate.{get_page_size-small}

-- The entry at `slot` leads nowhere.
abbrev pub IsAbsent : Mem → ℕ → Type 0
IsAbsent m slot = has_flags (load64 m slot) Arch.present ≡ false

-- The level at which the walk to the entry of the 4 KiB page of `va` finds no table.
pub data Missing (hhdm : ℕ) (m : Mem) (p : Pagemap) (va : ℕ) : Type 0 where
  no_top : p.top_level ≡ 0 → Missing hhdm m p va
  no_pml3 : p.top_level ≢ 0 → IsAbsent m (p.top_level + table_index va 39 * 8) → Missing hhdm m p va
  no_pml2 :
      (pml3 : ℕ)
      → p.top_level ≢ 0
      → Leads hhdm m (p.top_level + table_index va 39 * 8) pml3
      → IsAbsent m (pml3 + table_index va 30 * 8)
      → Missing hhdm m p va
  no_pml1 :
      (pml3 pml2 : ℕ)
      → p.top_level ≢ 0
      → Leads hhdm m (p.top_level + table_index va 39 * 8) pml3
      → Leads hhdm m (pml3 + table_index va 30 * 8) pml2
      → IsAbsent m (pml2 + table_index va 21 * 8)
      → Missing hhdm m p va

get_next_lvl-IsAbsent :
    (hhdm slabs curr entry : ℕ) (s : Pmm)
    → curr ≢ 0
    → IsAbsent s.mem (curr + entry * 8)
    → get_next_lvl hhdm slabs curr entry false s ≡ ok 0 s
unfolding get_next_lvl
get_next_lvl-IsAbsent hhdm slabs curr entry s n a = rw (ne→== curr 0 n, a) refl

virtual_to_pt_entry-Missing :
    (hhdm slabs va : ℕ) (p : Pagemap) (s : Pmm)
    → HasSizes p
    → Missing hhdm s.mem p va
    → virtual_to_pt_entry hhdm slabs p va false kib4 s ≡ ok 0 s
unfolding virtual_to_pt_entry
virtual_to_pt_entry-Missing hhdm slabs va p s z (no_top e) = ground (arith, e)
virtual_to_pt_entry-Missing hhdm slabs va p s z (no_pml3 n a) = ground (
  arith,
  ne→== p.top_level 0 n,
  get_next_lvl-IsAbsent hhdm slabs p.top_level (table_index va 39) s n a,
)
virtual_to_pt_entry-Missing hhdm slabs va p s z (no_pml2 pml3 n l a) = ground (
  arith,
  ne→== p.top_level 0 n,
  get_next_lvl-Leads hhdm slabs p.top_level (table_index va 39) pml3 false s n l,
  ne→== pml3 0 l.ne_null,
  ne→== kib4 p.llpage_size (omega (arith, z.largest)),
  get_next_lvl-IsAbsent hhdm slabs pml3 (table_index va 30) s l.ne_null a,
)
virtual_to_pt_entry-Missing hhdm slabs va p s z (no_pml1 pml3 pml2 n l k a) = ground (
  arith,
  ne→== p.top_level 0 n,
  get_next_lvl-Leads hhdm slabs p.top_level (table_index va 39) pml3 false s n l,
  ne→== pml3 0 l.ne_null,
  ne→== kib4 p.llpage_size (omega (arith, z.largest)),
  get_next_lvl-Leads hhdm slabs pml3 (table_index va 30) pml2 false s l.ne_null k,
  ne→== pml2 0 k.ne_null,
  ne→== kib4 p.lpage_size (omega (arith, z.large)),
  get_next_lvl-IsAbsent hhdm slabs pml2 (table_index va 21) s k.ne_null a,
)

-- Let the page sizes be those of the constructor. Where there is no page map, or one of the three
-- tables below its top level is missing on the way to the 4 KiB page of `va`, and `flags` ask for no
-- large page: `virtual_to_physical` answers with the invalid address, `unmap` fails, and neither
-- changes anything; and `remap` from `va` is then the call of `map` from the new address to the
-- invalid address, with the result of that call.
pub missing_lem :
    (hhdm slabs va to flags : ℕ) (gib1_pages : Bool) (cache : Caching) (p : Pagemap) (s : Pmm)
    → HasSizes p
    → has_flags flags Flag.llpage ≡ false
    → has_flags flags Flag.lpage ≡ false
    → Missing hhdm s.mem p va
    → (virtual_to_physical hhdm slabs p va flags s ≡ ok invalid_addr s)
      × (unmap hhdm slabs gib1_pages p va flags s ≡ ok false s)
      × (remap hhdm slabs gib1_pages p va to flags cache s
          ≡ map hhdm slabs gib1_pages p to invalid_addr flags cache s)
missing_lem hhdm slabs va to flags gib1_pages cache p s z h g a =
    (untranslated, not_unmapped, unfold remap in ground (arith, untranslated, not_unmapped))
  where
    small : get_page_size p flags ≡ kib4
    small = get_page_size-small p flags z h g

    no_entry : virtual_to_pt_entry hhdm slabs p va false kib4 s ≡ ok 0 s
    no_entry = virtual_to_pt_entry-Missing hhdm slabs va p s z a

    untranslated : virtual_to_physical hhdm slabs p va flags s ≡ ok invalid_addr s
    untranslated = unfold virtual_to_physical in ground (arith, small, no_entry)

    not_unmapped : unmap hhdm slabs gib1_pages p va flags s ≡ ok false s
    not_unmapped =
        unfold unmap unmap_one in
        ground
          (arith, small, z.small, ne→== kib4 p.llpage_size (omega (arith, z.largest)), no_entry)
