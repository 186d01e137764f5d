-- ===== src/Memory/Slab/Init.antt =====
-- `slab_t::init` of kernel/memory/memory.cpp, with the page that it takes from the page allocator.
use ice.Prelude.{
  ℕ, ◌+◌, ◌*◌, ◌^◌, ◌<◌, ◌≡◌, ◌∙◌, ap, arith, load64, store64, load64-store64, load_bytes_ext,
  store_bytes_outside,
}
use native.Mathlib.Nat.{add-mul}
use ice.Utils.Math.{tohh}
use ice.Memory.Physical
use ice.Memory.Physical.{Pmm, done}
use ice.Memory.Physical.Alloc.{IsValid, Allocated, tohh-page}
use ice.Memory.Physical.Retry.{alloc-Allocated}
use ice.Memory.Physical.Use.{KeepsBitmap, IsValid-KeepsBitmap}
use ice.Memory.Slab.{ok, slab_init, last_object, sizes}
use ice.Memory.Slab.Layout.{OneOf, FillsPage, sizes-FillsPage}
use ice.Memory.Slab.FreeList.{IsFree}
use ice.Memory.Slab.FreeList.Chain.{Disjoint}
use ice.Memory.Slab.Fill.{page_objects, slab_init-IsFree}

-- Let the page allocator be valid and find a page, and a slab below 2 ^ 64 lie apart from the bitmap
-- and from that page. For one of the ten sizes `slab_t::init` succeeds and leaves a slab whose free
-- objects are those that fill the page, in order. The page begins with the slab's address, where
-- `free` finds it. Outside the slab, the page and the bitmap no byte changes.
pub slab_init_lem :
    (hhdm slab size page : ℕ) (s s1 : Pmm)
    → OneOf sizes size
    → IsValid hhdm s
    → Physical.alloc hhdm 1 (record s { mem = store64 s.mem (slab + 8) size }) ≡ done page s1
    → slab < 2 ^ 64
    → Disjoint slab 16 s.bitmap.buffer 256
    → Disjoint slab 16 (tohh hhdm page) 0x1000
    → (s' : Pmm) × (slab_init hhdm slab size s ≡ ok tt s')
      × IsFree s'.mem slab size (page_objects (tohh hhdm page) size)
      × (load64 s'.mem (tohh hhdm page) ≡ slab)
      × ((a : ℕ)
          → Disjoint slab 16 a 1
          → Disjoint (tohh hhdm page) 0x1000 a 1
          → Disjoint s.bitmap.buffer 256 a 1
          → s'.mem a ≡ s.mem a)
slab_init_lem hhdm slab size page s s1 o v e b off d =
    let (s', ran, free, word, kept) =
      slab_init-IsFree hhdm slab size page s s1 o e size_kept b (omega (arith, place, within)) d in
    (
      s',
      ran,
      free,
      word,
      λ a da dp db.
          kept a (omega arith) dp
          ∙ got.kept a (omega (arith, place)) (omega arith)
          ∙ store_bytes_outside 8 s.mem (slab + 8) size a (omega arith),
    )
  where
    with_size : Pmm
    with_size = record s { mem = store64 s.mem (slab + 8) size }

    keeps : KeepsBitmap s (store64 s.mem (slab + 8) size)
    keeps a l h = store_bytes_outside 8 s.mem (slab + 8) size a (omega arith)

    with_size-IsValid : IsValid hhdm with_size
    with_size-IsValid = IsValid-KeepsBitmap hhdm s (store64 s.mem (slab + 8) size) keeps v

    got : Allocated hhdm 1 with_size page s1
    got = alloc-Allocated hhdm 1 with_size (omega arith) with_size-IsValid e

    fills : FillsPage size
    fills = sizes-FillsPage size o

    size_fits : size < 2 ^ 64
    size_fits = omega (arith, fills.inside, add-mul (last_object size) 1 size)

    within : got.page * 0x1000 + 0x1000 + hhdm < 2 ^ 64 + 1
    within = omega (arith, got.within, v.mapped)

    place : tohh hhdm page ≡ got.page * 0x1000 + hhdm
    place =
        ap (tohh hhdm) got.at
        ∙ tohh-page hhdm with_size got.page with_size-IsValid (omega (arith, got.within))

    size_kept : load64 s1.mem (slab + 8) ≡ size
    size_kept =
        load_bytes_ext 8 s1.mem with_size.mem (slab + 8)
          (λ c l h. got.kept c (omega (arith, place)) (omega arith))
        ∙ load64-store64 s.mem (slab + 8) size size_fits
