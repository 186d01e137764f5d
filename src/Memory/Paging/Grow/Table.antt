-- ===== src/Memory/Paging/Grow/Table.antt =====
-- The table that `get_next_lvl` of kernel/arch/x86_64/memory/virtual.cpp makes: a block of two pages
-- from the heap of kernel/memory/memory.cpp.
use ice.Prelude.{
  ℕ, ◌+◌, ◌*◌, ◌%◌, ◌^◌, ◌<◌, ◌≤◌, ◌≡◌, ◌≢◌, ◌⊎◌, ◌∙◌, inl, inr, arith, refl, ap, store64,
  store_bytes_outside,
}
use ice.Utils.Math.{tohh, fromhh, ishh, div_roundup}
use ice.Libc.String.{memset}
use ice.Libc.String.Block.{memset-IsWritten}
use ice.Memory.Physical
use ice.Memory.Physical.{Pmm, done, is_used, page_size}
use ice.Memory.Physical.Alloc.{IsValid, Allocated, page_addr, tohh-page}
use ice.Memory.Physical.Retry.{alloc-Allocated}
use ice.Memory.Slab.{ok, big_malloc, sizes}
use ice.Memory.Slab.Classes.{HasSizes, malloc_lem, size-AllBelow}
use ice.Memory.Slab.Pages.{page_count, with_meta, big_malloc-with_meta}
use ice.Memory.Paging.{new_table}

-- A page of the table's size is a block of whole pages with its metadata.
two_pages : page_count 0x1000 ≡ 2
unfolding div_roundup
two_pages = refl

-- Where the heap can make a table: the page allocator is valid and finds two pages in a row, the slabs
-- have their sizes, and the direct map begins at a page.
pub record Request (hhdm slabs : ℕ) (s : Pmm) (page : ℕ) (s' : Pmm) : Type 0 where
  pub aligned : hhdm % 0x1000 ≡ 0
  pub low : hhdm < 2 ^ 63
  pub valid : IsValid hhdm s
  pub has_sizes : HasSizes s.mem slabs sizes
  pub ne_null : slabs ≢ 0
  pub found : Physical.alloc hhdm 2 s ≡ done page s'

module _ {hhdm slabs : ℕ} {s : Pmm} {page : ℕ} {s' : Pmm} (q : Request hhdm slabs s page s') where
  pub got : Allocated hhdm 2 s page s'
  got = alloc-Allocated hhdm 2 s (omega arith) q.valid q.found

  unfoldable pub head : ℕ
  head = page_addr hhdm got.page

  head-eq : tohh hhdm page ≡ head
  unfolding head
  head-eq = ap (tohh hhdm) got.at ∙ tohh-page hhdm s got.page q.valid (omega (arith, got.within))

  unfoldable pub table : ℕ
  table = head + 0x1000

  pub table-eq : table ≡ head + 0x1000
  unfolding table
  table-eq = refl

  -- The new table's bytes are cleared behind the metadata.
  unfoldable pub cleared : Pmm
  cleared = record s' { mem = memset (with_meta s'.mem head 1 0x1000) table 0 0x1000 }

  pub new_table-cleared : new_table hhdm slabs s ≡ ok table cleared
  unfolding new_table cleared table
  new_table-cleared = elim (malloc_lem hhdm slabs 0x1000 s q.has_sizes q.ne_null) [
    | inr (i, l, m, fits, before) ↦ absurd (
        omega (
          arith,
          size-AllBelow s.mem 1024 sizes slabs i q.has_sizes
              (
                omega arith,
                (
                  omega arith,
                  (
                    omega arith,
                    (
                      omega arith,
                      (
                        omega arith,
                        (
                          omega arith,
                          (omega arith, (omega arith, (omega arith, (omega arith, tt)))),
                        ),
                      ),
                    ),
                  ),
                ),
              )
              l,
        ))
    | inl (l, m) ↦ ground (arith, m, big, head-eq, one_page)
  ]
    where
      big :
          big_malloc hhdm 0x1000 s
          ≡ ok (tohh hhdm page + 0x1000) (record s' {
            mem = with_meta s'.mem (tohh hhdm page) (div_roundup 0x1000 0x1000) 0x1000;
          })
      big =
          big_malloc-with_meta hhdm 0x1000 page s s'
            (ap (λ c. Physical.alloc hhdm c s) two_pages ∙ q.found)

      one_page : div_roundup 0x1000 0x1000 ≡ 1
      one_page = unfold div_roundup in refl

  -- Outside the new pages and the bitmap nothing has changed.
  pub cleared_kept :
      (c : ℕ)
      → (c < head) ⊎ (table + 0x1000 ≤ c)
      → (c < s.bitmap.buffer) ⊎ (s.bitmap.buffer + 256 ≤ c)
      → cleared.mem c ≡ s.mem c
  unfolding cleared head table
  cleared_kept c o b =
      (memset-IsWritten (with_meta s'.mem head 1 0x1000) table 0 0x1000).outside c (omega arith)
      ∙ store_bytes_outside 8 (store64 s'.mem head 1) (head + 8) 0x1000 c (omega arith)
      ∙ store_bytes_outside 8 s'.mem head 1 c (omega arith)
      ∙ got.kept c (omega arith) b

  pub bitmap_apart : (s.bitmap.buffer + 256 ≤ head) ⊎ (table + 0x1000 ≤ s.bitmap.buffer)
  unfolding head table
  bitmap_apart = omega (
    arith,
    q.valid.guarded got.page (omega (arith, got.within))
        (got.was_free got.page (omega arith) (omega arith)),
    q.valid.guarded (got.page + 1) (omega (arith, got.within))
        (got.was_free (got.page + 1) (omega arith) (omega arith)),
  )

  -- The new page table is in the direct map, in the second of the two pages.
  pub target : ℕ
  target = (got.page + 1) * page_size

  pub table_bounds :
      (table ≡ target + hhdm)
      × (target < 2 ^ 52)
      × (target % 0x1000 ≡ 0)
      × (fromhh hhdm table ≡ target)
      × (tohh hhdm target ≡ table)
  unfolding table head target fromhh tohh ishh
  table_bounds =
      let l = got.within in
      let t = q.valid.mapped in
      let h = q.low in
      (
        omega arith,
        omega (arith, q.valid.small),
        omega arith,
        ground (arith, q.valid.small),
        ground (arith, q.valid.small),
      )
