-- ===== src/Memory/Paging.antt =====
-- The page tables of kernel/arch/x86_64/memory/virtual.cpp and the inline methods of
-- kernel/include/memory/virtual.hpp. A table is 512 words in memory; a pointer is an address.
-- `hhdm_offset`, the heap's array of slabs and the flag `gib1_pages` are parameters. The list
-- `ranges` stands in Memory.Ranges; log messages and `invlpg` change no modelled state.
pub mod Entry
pub mod Index
pub mod Walk
pub mod Translate
pub mod Change
pub mod Lifetime
pub mod Unmap
pub mod Missing
pub mod Effects
pub mod Remap
pub mod Large
pub mod Grow
pub mod Fresh
pub mod Returns
pub mod Start
use ice.Prelude.{
  ℕ, zero, suc, ◌+◌, ◌-◌, ◌*◌, ◌/◌, ◌%◌, ◌^◌, bit_and, bit_or, bit_not, Bool, true, false, not,
  ◌&&◌, ◌==◌, leb, if◌then◌else◌,
}
use ice.Utils.Math.{add64, tohh, fromhh}
use ice.Memory.Physical.{Pmm}
use ice.Memory.Slab.{Run, ok, panic, ◌>>=◌, ◌>>◌, pure, read, write, fill}
use ice.Memory.Slab
use Entry.{Caching, set_flags, has_flags, get_address, set_address, flags_to_arch, cache_to_flags}
use Entry

abbrev pub kib4 : ℕ
kib4 = 0x1000

abbrev pub mib2 : ℕ
mib2 = 0x200000

abbrev pub gib1 : ℕ
gib1 = 0x40000000

abbrev pub invalid_addr : ℕ
invalid_addr = 2 ^ 64 - 1

pub record Pagemap : Type 0 where
  pub top_level : ℕ
  pub llpage_size : ℕ
  pub lpage_size : ℕ
  pub page_size : ℕ

pub get_page_size : Pagemap → ℕ → ℕ
get_page_size p flags =
    if has_flags flags Entry.Flag.llpage
    then p.llpage_size
    else (if has_flags flags Entry.Flag.lpage then p.lpage_size else p.page_size)

-- The size of pages for a range, and the flag for it.
unfoldable pub required_size : Pagemap → ℕ → ℕ × ℕ
required_size p size =
    if leb p.llpage_size size
    then (p.llpage_size, Entry.Flag.llpage)
    else (if leb p.lpage_size size then (p.lpage_size, Entry.Flag.lpage) else (p.page_size, 0))

-- `(virtual_address & (0x1FF << k)) >> k`.
unfoldable pub table_index : ℕ → ℕ → ℕ
table_index virtual_address k = bit_and virtual_address (0x1ff * 2 ^ k) / 2 ^ k

-- `for (i = 0; i < end; i += step) if (!body(i)) return false; return true;`, rounds left first.
unfoldable pub for_pages : ℕ → ℕ → ℕ → (ℕ → Pmm → Run Bool) → Pmm → Run Bool
for_pages zero i step body s = ok true s
for_pages (suc left) i step body s =
    let more = for_pages left (i + step) step body in
    (body i >>= λ done. if done then more else pure false) s

-- The same without a test of the result; `rounds` counts the pages of `size` bytes.
abbrev pub each_page : ℕ → ℕ → (ℕ → Pmm → Run Bool) → Pmm → Run Bool
each_page size step body = for_pages ((size + step - 1) / step) 0 step (λ i. body i >> pure true)

module _ (hhdm_offset slabs : ℕ) where
  -- `new page_table_t`: the entries' values begin as 0.
  unfoldable pub new_table : Pmm → Run ℕ
  new_table = do table ← Slab.malloc hhdm_offset slabs 0x1000; fill table 0 0x1000; pure table

  unfoldable pub get_next_lvl : ℕ → ℕ → Bool → Pmm → Run ℕ
  get_next_lvl curr_lvl entry allocate =
      let slot = curr_lvl + entry * 8 in
      let make = (do
        ret ← new_table
        old ← read slot
        write slot (set_address old (fromhh hhdm_offset ret))
        value ← read slot
        write slot (
            set_flags value
              (bit_or (bit_or Entry.Arch.present Entry.Arch.write) Entry.Arch.user_super) true)
        pure ret) in
      if curr_lvl == 0 then pure 0 else do
        value ← read slot
        if has_flags value Entry.Arch.present
            then pure (tohh hhdm_offset (get_address value))
            else (if allocate then make else pure 0)

  -- The address of the entry, or 0.
  pub virtual_to_pt_entry : Pagemap → ℕ → Bool → ℕ → Pmm → Run ℕ
  virtual_to_pt_entry p virtual_address allocate page_size = if p.top_level == 0 then pure 0 else do
    pml3 ← get_next_lvl p.top_level (table_index virtual_address 39) allocate
    if pml3 == 0
        then pure 0
        else (if page_size == p.llpage_size
            then pure (pml3 + table_index virtual_address 30 * 8)
            else (do
              pml2 ← get_next_lvl pml3 (table_index virtual_address 30) allocate
              if pml2 == 0
                  then pure 0
                  else (if page_size == p.lpage_size
                      then pure (pml2 + table_index virtual_address 21 * 8)
                      else (do
                        pml1 ← get_next_lvl pml2 (table_index virtual_address 21) allocate
                        if pml1 == 0
                            then pure 0
                            else pure (pml1 + table_index virtual_address 12 * 8)))))

  pub virtual_to_physical : Pagemap → ℕ → ℕ → Pmm → Run ℕ
  virtual_to_physical p virtual_address flags =
      let page_size = get_page_size p flags in
      do
        entry ← virtual_to_pt_entry p virtual_address false page_size
        if entry == 0 then pure invalid_addr else (do
          value ← read entry
          if has_flags value Entry.Arch.present
              then pure (add64 (get_address value) (virtual_address % page_size))
              else pure invalid_addr)

  pub map_one : Pagemap → ℕ → ℕ → ℕ → Caching → ℕ → Pmm → Run Bool
  map_one p virtual_address physical_address flags cache page_size = do
    entry ← virtual_to_pt_entry p virtual_address true page_size
    let real_flags =
        bit_or (flags_to_arch flags) (cache_to_flags cache (not (page_size == p.page_size)))
    if entry == 0 then pure false else (do
      old ← read entry
      write entry (set_address old physical_address)
      value ← read entry
      write entry (set_flags value real_flags true)
      pure true)

  -- `flags &= ~LLPAGE; flags |= LPAGE;`
  abbrev pub smaller_pages : ℕ → ℕ
  smaller_pages flags = bit_or (bit_and flags (bit_not 64 Entry.Flag.llpage)) Entry.Flag.lpage

  module _ (gib1_pages : Bool) where
    abbrev pub must_split : Pagemap → ℕ → Bool
    must_split p page_size = (page_size == p.llpage_size) && not gib1_pages

    pub map : Pagemap → ℕ → ℕ → ℕ → Caching → Pmm → Run Bool
    map p virtual_address physical_address flags cache =
        let page_size = get_page_size p flags in
        if must_split p page_size
        then for_pages 512 0 mib2 (λ i.
          map_one p (add64 virtual_address i) (add64 physical_address i) (smaller_pages flags) cache
            mib2)
        else map_one p virtual_address physical_address flags cache page_size
