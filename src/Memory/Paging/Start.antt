-- ===== src/Memory/Paging/Start.antt =====
-- `init` of kernel/memory/virtual.cpp: the kernel's page map. The boot loader's memory map is a
-- list, and its answers on the kernel's file are arguments. A failed `assert` does not return.
use ice.Prelude.{
  ℕ, ◌+◌, ◌-◌, ◌*◌, ◌/◌, bit_or, Bool, true, ltb, ◌==◌, if◌then◌else◌, List, [], ◌∷◌, none,
}
use ice.Utils.Math.{add64, align_down, align_up, tohh}
use ice.Memory.Physical.{Pmm}
use ice.Memory.Physical.Init.{Entry}
use ice.Memory.Slab.{Run, panic, ◌>>=◌, ◌>>◌, pure}
use ice.Memory.Paging.{Pagemap, required_size, map, for_pages, each_page, gib1}
use ice.Memory.Paging.Entry.{Caching, default_caching}
use ice.Memory.Paging.Lifetime.{new_pagemap, load}

-- The flags RW and RWX.
abbrev pub rw_flags : ℕ
rw_flags = 3

abbrev pub rwx_flags : ℕ
rwx_flags = 7

-- LIMINE_MEMMAP_FRAMEBUFFER.
abbrev pub framebuffer : ℕ
framebuffer = 7

abbrev pub assert : (Pmm → Run Bool) → Pmm → Run Bool
assert m = m >>= λ done. if done then pure true else (λ s. panic)

-- The kernel's file: its size, and the addresses of its first byte.
pub record KernelFile : Type 0 where
  pub size : ℕ
  pub physical_base : ℕ
  pub virtual_base : ℕ

module _ (hhdm_offset slabs : ℕ) (gib1_pages : Bool) where
  -- `t` at its own address and in the direct map.
  unfoldable pub map_both : Pagemap → ℕ → ℕ → Caching → Pmm → Run Bool
  map_both p t flags cache =
      assert (map hhdm_offset slabs gib1_pages p t t (bit_or rwx_flags flags) cache)
      >> assert
          (map hhdm_offset slabs gib1_pages p (tohh hhdm_offset t) t (bit_or rw_flags flags) cache)

  unfoldable pub map_low : Pagemap → Pmm → Run Bool
  map_low p =
      let (page_size, flags) = required_size p (gib1 * 4) in
      each_page (gib1 * 4) page_size (λ i. map_both p i flags default_caching)

  -- One entry of the memory map; pages below 4 GiB are skipped.
  unfoldable pub map_entry : Pagemap → Entry → Pmm → Run Bool
  map_entry p e =
      let base = align_down e.base p.page_size in
      let top = align_up (add64 e.base e.length) p.page_size in
      let cache = if e.kind == framebuffer then Caching.write_combining else default_caching in
      let rounds = (top - base + p.page_size - 1) / p.page_size in
      if ltb top (gib1 * 4)
      then pure true
      else for_pages rounds base p.page_size
          (λ t. if ltb t (gib1 * 4) then pure true else map_both p t 0 cache)

  unfoldable pub map_entries : Pagemap → List Entry → Pmm → Run Bool
  map_entries p [] = pure true
  map_entries p (e ∷ es) = map_entry p e >> map_entries p es

  unfoldable pub map_kernel : Pagemap → KernelFile → Pmm → Run Bool
  map_kernel p f = each_page f.size p.page_size (λ i. assert (
      map hhdm_offset slabs gib1_pages p (add64 f.virtual_base i) (add64 f.physical_base i)
        rwx_flags default_caching))

  -- The new page map, with the value that goes into cr3.
  unfoldable pub start : List Entry → KernelFile → Pmm → Run (Pagemap × ℕ)
  start es f = do
    p ← new_pagemap hhdm_offset slabs none
    map_low p
    map_entries p es
    map_kernel p f
    pure (p, load hhdm_offset slabs p)
