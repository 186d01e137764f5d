-- ===== src/Memory/Paging/Change.antt =====
-- The operations that change mappings: `unmap`, `set_flags` of
-- kernel/arch/x86_64/memory/virtual.cpp and the range methods of kernel/include/memory/virtual.hpp.
use ice.Prelude.{ℕ, Bool, true, false, not, ◌==◌, bit_or, if◌then◌else◌}
use ice.Utils.Math.{add64}
use ice.Memory.Physical.{Pmm}
use ice.Memory.Slab.{Run, ◌>>=◌, ◌>>◌, pure, read, write}
use ice.Memory.Paging.{
  Pagemap, get_page_size, virtual_to_pt_entry, virtual_to_physical, for_pages, each_page, map,
  must_split, mib2,
}
use ice.Memory.Paging.Entry.{
  Caching, get_address, set_address, set_flags, flags_to_arch, cache_to_flags,
}

module _ (hhdm_offset slabs : ℕ) where
  -- Its second argument is not used: the page size inside is that of the smallest pages.
  unfoldable pub unmap_one : Pagemap → ℕ → Pmm → Run Bool
  unmap_one p virtual_address = do
    entry ← virtual_to_pt_entry hhdm_offset slabs p virtual_address false p.page_size
    if entry == 0 then pure false else (do write entry 0; pure true)

  unfoldable pub set_page_flags : Pagemap → ℕ → ℕ → Caching → Pmm → Run Bool
  set_page_flags p virtual_address flags cache =
      let page_size = get_page_size p flags in
      let real_flags =
        bit_or (flags_to_arch flags) (cache_to_flags cache (not (page_size == p.page_size))) in
      do
        entry ← virtual_to_pt_entry hhdm_offset slabs p virtual_address true page_size
        if entry == 0 then pure false else (do
          value ← read entry
          write entry 0
          cleared ← read entry
          write entry (set_address cleared (get_address value))
          addressed ← read entry
          write entry (set_flags addressed real_flags true)
          pure true)

  unfoldable pub set_flags_range : Pagemap → ℕ → ℕ → ℕ → Caching → Pmm → Run Bool
  set_flags_range p virtual_address size flags cache =
      each_page size (get_page_size p flags)
        (λ i. set_page_flags p (add64 virtual_address i) flags cache)

  module _ (gib1_pages : Bool) where
    unfoldable pub unmap : Pagemap → ℕ → ℕ → Pmm → Run Bool
    unmap p virtual_address flags =
        if must_split hhdm_offset slabs gib1_pages p (get_page_size p flags)
        then for_pages 512 0 mib2 (λ i. unmap_one p (add64 virtual_address i))
        else unmap_one p virtual_address

    unfoldable pub remap : Pagemap → ℕ → ℕ → ℕ → Caching → Pmm → Run Bool
    remap p old_ptr new_ptr flags cache = do
      physical_address ← virtual_to_physical hhdm_offset slabs p old_ptr flags
      unmap p old_ptr flags
      map hhdm_offset slabs gib1_pages p new_ptr physical_address flags cache

    -- The inline `map_range` calls `unmap`, as `unmap_range` does.
    unfoldable pub map_range_inline : Pagemap → ℕ → ℕ → ℕ → ℕ → Caching → Pmm → Run Bool
    map_range_inline p virtual_address physical_address size flags cache =
        each_page size (get_page_size p flags) (λ i. unmap p (add64 virtual_address i) flags)

    unfoldable pub unmap_range : Pagemap → ℕ → ℕ → ℕ → Pmm → Run Bool
    unmap_range p virtual_address size flags =
        each_page size (get_page_size p flags) (λ i. unmap p (add64 virtual_address i) flags)

    unfoldable pub remap_range : Pagemap → ℕ → ℕ → ℕ → ℕ → Caching → Pmm → Run Bool
    remap_range p old_ptr new_ptr size flags cache =
        each_page size (get_page_size p flags)
          (λ i. remap p (add64 old_ptr i) (add64 new_ptr i) flags cache)
