-- ===== src/Memory/Slab/Big.antt =====
-- Allocations of whole pages in kernel/memory/memory.cpp.
use ice.Prelude.{
  ℕ, ◌+◌, ◌-◌, ◌^◌, ◌≤◌, ◌<◌, ◌≡◌, ◌≢◌, ap, arith, load64, store64, load64-store64, ne→==, ==_iff,
}
use ice.Utils.Math.{div_roundup, add64, sub64, tohh}
use ice.Memory.Physical
use ice.Memory.Physical.{Pmm, done}
use ice.Memory.Slab.{ok, big_malloc, big_alloc_size, big_realloc}

-- Where the pages behind it were had, `big_malloc` returns an address a page past the metadata, and
-- `big_alloc_size` of that address gives the size that was asked for.
pub big_alloc_size-big_malloc :
    (hhdm size page : ℕ) (s s' : Pmm)
    → size + 0x1000 ≤ 2 ^ 64
    → Physical.alloc hhdm (add64 (div_roundup size 0x1000) 1) s ≡ done page s'
    → tohh hhdm page + 0x1000 < 2 ^ 64
    → (t : Pmm) × (big_malloc hhdm size s ≡ ok (tohh hhdm page + 0x1000) t)
      × (big_alloc_size (tohh hhdm page + 0x1000) t ≡ ok size t)
unfolding big_malloc big_alloc_size
big_alloc_size-big_malloc hhdm size page s s' fits e low = (
  final,
  ground (arith, e),
  rw meta (ap (λ t. ok t final) (load64-store64 _ (ptr + 8) size (omega arith))),
)
  where
    ptr : ℕ
    ptr = tohh hhdm page

    pages : ℕ
    pages = div_roundup size 0x1000

    final : Pmm
    final = record s' { mem = store64 (store64 s'.mem ptr pages) (ptr + 8) size }

    meta : sub64 (ptr + 0x1000) 0x1000 ≡ ptr
    meta = omega arith

-- Asked for a size that takes as many pages as before, `big_realloc` writes the new size into the
-- metadata and returns a null pointer, though the block stays where it is.
pub big_realloc_same_pages :
    (hhdm slabs ptr size : ℕ) (s : Pmm)
    → 0x1000 ≤ ptr
    → ptr < 2 ^ 64
    → div_roundup (load64 s.mem (ptr - 0x1000 + 8)) 0x1000 ≡ div_roundup size 0x1000
    → big_realloc hhdm slabs ptr size s
      ≡ ok 0 (record s { mem = store64 s.mem (ptr - 0x1000 + 8) size })
unfolding big_realloc
big_realloc_same_pages hhdm slabs ptr size s p l e =
    let n : ptr ≢ 0 = omega arith in
    let meta : sub64 ptr 0x1000 ≡ ptr - 0x1000 = omega arith in
    rw (ne→== ptr 0 n, meta, (==_iff _ _).1 e)
