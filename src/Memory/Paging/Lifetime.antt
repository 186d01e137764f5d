-- ===== src/Memory/Paging/Lifetime.antt =====
-- The start and the end of a page map, kernel/arch/x86_64/memory/virtual.cpp. The register cr3 is a
-- value that `load` gives and `save` takes.
use ice.Prelude.{ℕ, zero, suc, ◌+◌, ◌*◌, true, false, ◌==◌, Option, none, some, if◌then◌else◌}
use ice.Utils.Math.{tohh, fromhh}
use ice.Memory.Physical.{Pmm}
use ice.Memory.Slab
use ice.Memory.Slab.{Run, ok, panic, ◌>>=◌, ◌>>◌, pure, read, write}
use ice.Memory.Paging.{Pagemap, new_table, get_next_lvl, kib4, mib2, gib1}

module _ (hhdm_offset slabs : ℕ) where
  unfoldable pub load : Pagemap → ℕ
  load p = fromhh hhdm_offset p.top_level

  unfoldable pub save : ℕ → Pagemap → Pagemap
  save cr3 p = record p { top_level = tohh hhdm_offset cr3 }

  -- `for (i = 256; i < 512; i++) get_next_lvl(top_level, i, true)`, rounds left first.
  unfoldable pub fill_levels : ℕ → ℕ → ℕ → Pmm → Run (Unit {0})
  fill_levels zero top i = pure tt
  fill_levels (suc left) top i =
      get_next_lvl hhdm_offset slabs top i true >> fill_levels left top (i + 1)

  unfoldable pub copy_levels : ℕ → ℕ → ℕ → ℕ → Pmm → Run (Unit {0})
  copy_levels zero top kernel_top i = pure tt
  copy_levels (suc left) top kernel_top i = do
    value ← read (kernel_top + i * 8)
    write (top + i * 8) value
    copy_levels left top kernel_top (i + 1)

  -- The constructor `pagemap_t()`; the argument is `kernel_pagemap`.
  unfoldable pub new_pagemap : Option Pagemap → Pmm → Run Pagemap
  new_pagemap kernel_pagemap = do
    top ← new_table hhdm_offset slabs
    let p : Pagemap = record {
      top_level = top;
      llpage_size = gib1;
      lpage_size = mib2;
      page_size = kib4;
    }
    elim kernel_pagemap [
      | none ↦ fill_levels 256 top 256
      | some k ↦ copy_levels 256 top k.top_level 256
    ]
    pure p

  -- The loop of `destroy_level` over the entries from i on, with the call for the next level.
  unfoldable pub destroy_entries : (ℕ → Pmm → Run (Unit {0})) → ℕ → ℕ → ℕ → Pmm → Run (Unit {0})
  destroy_entries deeper zero pml i = pure tt
  destroy_entries deeper (suc left) pml i = do
    next ← get_next_lvl hhdm_offset slabs pml i false
    if next == 0 then pure tt else deeper next
    destroy_entries deeper left pml (i + 1)

  -- `destroy_level(pml, start, start + count, level)`.
  unfoldable pub destroy_level : ℕ → ℕ → ℕ → ℕ → Pmm → Run (Unit {0})
  destroy_level zero pml start count = pure tt
  destroy_level (suc level) pml start count =
      destroy_entries (λ next. destroy_level level next 0 512) count pml start
      >> Slab.free hhdm_offset pml

  unfoldable pub destroy_pagemap : Pagemap → Pmm → Run (Unit {0})
  destroy_pagemap p = destroy_level 4 p.top_level 0 256
