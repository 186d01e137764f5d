-- ===== src/Memory/Slab/Pages.antt =====
-- Blocks of whole pages handed out and given back, kernel/memory/memory.cpp.
use ice.Prelude.{
  ℕ, ◌+◌, ◌%◌, ◌^◌, ◌<◌, ◌≤◌, ◌≡◌, ◌≢◌, ◌⊎◌, inl, ap, ◌∙◌, arith, Mem, load64, store64,
  load64-store64, load64-store64_ne, store_bytes_outside, bit_and_mask, ne→==,
}
use ice.Utils.Math.{align_down, div_roundup, add64, sub64, tohh, fromhh}
use ice.Utils.Math.Align.{align_down_lem, fromhh-tohh}
use ice.Utils.Bitmap.{Bitmap}
use ice.Memory.Physical
use ice.Memory.Physical.{Pmm, done, is_used, page_size}
use ice.Memory.Physical.Alloc.{IsValid, Allocated, page_addr, limit, tohh-page}
use ice.Memory.Physical.Retry.{alloc-Allocated}
use ice.Memory.Physical.Use.{KeepsBitmap, free-alloc_used}
use ice.Memory.Slab.{Run, ok, big_malloc, big_free}
use ice.Memory.Slab

-- The number of pages for a size, with the page of the metadata.
abbrev pub page_count : ℕ → ℕ
page_count size = add64 (div_roundup size 0x1000) 1

page_count-bounds : (size : ℕ) → (1 ≤ page_count size) × (div_roundup size 0x1000 < 2 ^ 64)
unfolding div_roundup align_down
page_count-bounds size =
    let x = sub64 (add64 size 0x1000) 1 in
    omega (arith, align_down_lem 12 x (omega arith) (omega arith))

-- The memory with the metadata.
abbrev pub with_meta : Mem → ℕ → ℕ → ℕ → Mem
with_meta m head pages size = store64 (store64 m head pages) (head + 8) size

pub big_malloc-with_meta :
    (hhdm size page : ℕ) (s s' : Pmm)
    → Physical.alloc hhdm (page_count size) s ≡ done page s'
    → big_malloc hhdm size s
      ≡ ok
          (tohh hhdm page + 0x1000)
          (record s' { mem = with_meta s'.mem (tohh hhdm page) (div_roundup size 0x1000) size })
unfolding big_malloc
big_malloc-with_meta hhdm size page s s' e = ground (arith, e)

-- `free` of a pointer to the start of a page gives back the pages that the metadata tells.
free-big :
    (hhdm head pages : ℕ) (t : Pmm)
    → head % 0x1000 ≡ 0
    → head + 0x1000 < 2 ^ 64
    → load64 t.mem head ≡ pages
    → Slab.free hhdm (head + 0x1000) t ≡ ok tt (Physical.free (fromhh hhdm head) (add64 pages 1) t)
unfolding Slab.free big_free
free-big hhdm head pages t a l e =
    let nonzero : head + 0x1000 ≢ 0 = λ q. omega (arith, q) in
    let aligned : (head + 0x1000) % 0x1000 ≡ 0 = omega arith in
    let meta : sub64 (head + 0x1000) 0x1000 ≡ head = omega arith in
    ground
      (arith, ne→== (head + 0x1000) 0 nonzero, bit_and_mask 12 (head + 0x1000), aligned, meta, e)

-- Let the direct map begin at a page and the page allocator be valid, with at most 2048 pages. Where
-- `big_malloc` gets its pages, `free` of the pointer that it returns makes every page read as before
-- the call, restores the used memory and leaves a valid state.
pub free-big_malloc :
    (hhdm size : ℕ) (s : Pmm) {page : ℕ} {s' : Pmm}
    → hhdm % 0x1000 ≡ 0
    → IsValid hhdm s
    → s.used_memory < 2 ^ 64
    → Physical.alloc hhdm (page_count size) s ≡ done page s'
    → (ptr : ℕ) × (t : Pmm) × (u : Pmm) × (big_malloc hhdm size s ≡ ok ptr t)
      × (Slab.free hhdm ptr t ≡ ok tt u)
      × ((j : ℕ) → j < 2048 → is_used u j ≡ is_used s j)
      × (u.used_memory ≡ s.used_memory)
      × IsValid hhdm u
free-big_malloc hhdm size s {page} {s'} h v w e = (
  tohh hhdm page + 0x1000,
  t,
  Physical.free page (page_count size) t,
  big_malloc-with_meta hhdm size page s s' e,
  free-big hhdm (tohh hhdm page) (div_roundup size 0x1000) t (omega (arith, head, h))
        (omega (arith, head, v.mapped, low)) stored
      ∙ ap (λ x. ok tt (Physical.free x (page_count size) t)) back,
  freed.0,
  freed.1,
  freed.2,
)
  where
    t : Pmm
    t = record s' { mem = with_meta s'.mem (tohh hhdm page) (div_roundup size 0x1000) size }

    a : Allocated hhdm (page_count size) s page s'
    a = alloc-Allocated hhdm (page_count size) s (page_count-bounds size).0 v e

    low : a.page < limit s
    low = omega (arith, a.within, (page_count-bounds size).0)

    head : tohh hhdm page ≡ page_addr hhdm a.page
    head = ap (tohh hhdm) a.at ∙ tohh-page hhdm s a.page v low

    stored : load64 t.mem (tohh hhdm page) ≡ div_roundup size 0x1000
    stored =
        load64-store64_ne _ (tohh hhdm page + 8) size (tohh hhdm page) (inl (omega arith))
        ∙ load64-store64 s'.mem (tohh hhdm page) (div_roundup size 0x1000)
            (page_count-bounds size).1

    back : fromhh hhdm (tohh hhdm page) ≡ page
    back =
        (fromhh-tohh hhdm page (omega (arith, a.at, v.mapped, low))
          (omega (arith, a.at, v.mapped, low))).1

    kept : KeepsBitmap s' t.mem
    kept b p q =
        store_bytes_outside 8 _ (tohh hhdm page + 8) size b (omega (arith, apart))
        ∙ store_bytes_outside 8 s'.mem (tohh hhdm page) (div_roundup size 0x1000) b
            (omega (arith, apart))
      where
        apart : (b < tohh hhdm page) ⊎ (tohh hhdm page + 0x1000 ≤ b)
        apart = omega (
          arith,
          head,
          v.guarded a.page low
              (a.was_free a.page (omega arith) (omega (arith, (page_count-bounds size).0))),
          ap (λ (m : Bitmap). m.buffer) a.same_bitmap,
        )

    freed :
        ((j : ℕ) → j < 2048 → is_used (Physical.free page (page_count size) t) j ≡ is_used s j)
        × ((Physical.free page (page_count size) t).used_memory ≡ s.used_memory)
        × IsValid hhdm (Physical.free page (page_count size) t)
    freed = free-alloc_used hhdm (page_count size) s t.mem (page_count-bounds size).0 v w e kept
