-- ===== src/Tests/Heap.antt =====
-- The heap of kernel/memory/memory.cpp: a slab with a free object, and a block of whole pages.
use ice.Prelude.{
  ℕ, true, ◌+◌, ◌*◌, ◌^◌, ◌<◌, ◌≤◌, ◌≡◌, ◌⊎◌, inl, inr, refl, arith, if◌then◌else◌, load64, store64,
  store, store_bytes, store, load_bytes, ◌==◌, [], ◌∷◌,
}
use ice.Utils.Math.{add64, align_down, ishh, tohh, div_roundup}
use ice.Utils.Bitmap.{get, set}
use ice.Libc.String.{memset}
use ice.Memory.Physical
use ice.Memory.Physical.{Pmm, done, is_used}
use ice.Memory.Slab
use ice.Memory.Slab.Fill.{page_objects}
use ice.Memory.Slab.Init.{slab_init_lem}
use ice.Memory.Slab.Roundtrip.{page_start, free-slab_alloc}
use ice.Memory.Slab.{
  malloc, slab_init, ok, sizes, get_slab, slab_alloc, slab_free, big_malloc, big_alloc_size,
  big_realloc, alloc_size,
}
use ice.Memory.Slab.Layout.{FillsPage, sizes-FillsPage}
use ice.Memory.Slab.FreeList.{IsFree}
use ice.Memory.Slab.FreeList.Chain.{Disjoint}
use ice.Memory.Slab.Classes.{HasSizes, malloc_lem}
use ice.Memory.Slab.Pages.{free-big_malloc}
use ice.Memory.Physical.Alloc.{IsValid}
use ice.Tests.Pages.{four_pages-IsValid, four_pages, offset}

sizes-FillsPage_example : FillsPage 48
sizes-FillsPage_example = sizes-FillsPage 48 (inr (inr (inl refl)))

-- A slab at 64 for objects of 16 bytes, with the free objects at 256 and then 512.
abbrev slab_words : ℕ → ℕ
slab_words a = if a == 65 then 1 else (if a == 72 then 16 else (if a == 257 then 2 else 0))

abbrev pub heap : Pmm
heap = record four_pages { mem = slab_words }

pub two_objects-IsFree : IsFree heap.mem 64 16 (256 ∷ 512 ∷ [])
unfolding load_bytes
two_objects-IsFree = record {
  chain = (
    refl,
    λ e. omega (arith, e),
    omega arith,
    (inl (omega arith), tt),
    (refl, λ e. omega (arith, e), omega arith, tt, refl),
  );
  apart = (inl (omega arith), (inl (omega arith), tt));
  object_size = refl;
  enough = (omega arith, omega arith);
}

-- The ten slabs at 16, each with its size in its second word.
abbrev pub slab_sizes : ℕ → ℕ
slab_sizes a =
    if a == 24
    then 16
    else (if a == 40
        then 32
        else (if a == 56
            then 48
            else (if a == 72
                then 80
                else (if a == 88
                    then 128
                    else (if a == 104
                        then 192
                        else (if a == 120
                            then 32
                            else (if a == 121
                                then 1
                                else (if a == 136
                                    then 192
                                    else (if a == 137
                                        then 1
                                        else (if a == 152
                                            then 160
                                            else (if a == 153
                                                then 2
                                                else (if a == 169 then 4 else 0))))))))))))

abbrev ten_slabs : Pmm
ten_slabs = record four_pages { mem = slab_sizes }

ten_slabs-HasSizes : HasSizes slab_sizes 16 sizes
unfolding load_bytes
ten_slabs-HasSizes =
    (refl, (refl, (refl, (refl, (refl, (refl, (refl, (refl, (refl, (refl, tt))))))))))

-- Both free pages taken.
abbrev pair_taken : Pmm
pair_taken = record four_pages {
  mem =
      memset (set (set four_pages.mem four_pages.bitmap 2 true) four_pages.bitmap 3 true)
        (tohh offset 0x2000) 0 (2 * 0x1000);
  last_index = 4;
  used_memory = add64 0x2000 (2 * 0x1000);
}

alloc_pair :
    Physical.alloc offset (add64 (div_roundup 100 0x1000) 1) four_pages ≡ done 0x2000 pair_taken
unfolding Physical.alloc Physical.inner_alloc Physical.finish Physical.mark_range Physical.mark
    Physical.is_used get set store div_roundup align_down
alloc_pair = refl

not_at_end : tohh offset 0x2000 + 0x1000 < 2 ^ 64
unfolding tohh ishh
not_at_end = omega arith

-- A block at 8192 of 100 bytes, with its size at 4104.
abbrev big_block : Pmm
big_block = record four_pages { mem = λ a. if a == 4104 then 100 else 0 }

same_count : div_roundup (load64 big_block.mem 4104) 0x1000 ≡ div_roundup 200 0x1000
unfolding div_roundup align_down load_bytes
same_count = refl

-- The size of a block of whole pages is read from the page before it.
alloc_size_runs : alloc_size 8192 big_block ≡ ok 100 big_block
unfolding alloc_size big_alloc_size load_bytes
alloc_size_runs = refl

-- A new slab of objects of 48 bytes at 64, in the first free page.
abbrev with_size : Pmm
with_size = record four_pages { mem = store64 four_pages.mem 72 48 }

abbrev page_taken : Pmm
page_taken = record with_size {
  mem = memset (set with_size.mem with_size.bitmap 2 true) (tohh offset 0x2000) 0 (1 * 0x1000);
  last_index = 3;
  used_memory = add64 0x2000 (1 * 0x1000);
}

alloc_page : Physical.alloc offset 1 with_size ≡ done 0x2000 page_taken
unfolding Physical.alloc Physical.inner_alloc Physical.finish Physical.mark_range Physical.mark
    Physical.is_used get set store store_bytes
alloc_page = refl

page_apart : Disjoint 64 16 (tohh offset 0x2000) 0x1000
unfolding tohh ishh
page_apart = inl (omega arith)

slab_init_lem_example :
    (s' : Pmm) × (slab_init offset 64 48 four_pages ≡ ok tt s')
    × IsFree s'.mem 64 48 (page_objects (tohh offset 0x2000) 48)
    × (load64 s'.mem (tohh offset 0x2000) ≡ 64)
    × ((a : ℕ)
        → Disjoint 64 16 a 1
        → Disjoint (tohh offset 0x2000) 0x1000 a 1
        → Disjoint offset 256 a 1
        → s'.mem a ≡ four_pages.mem a)
slab_init_lem_example =
    slab_init_lem offset 64 48 0x2000 four_pages page_taken (inr (inr (inl refl)))
      four_pages-IsValid alloc_page (omega arith) (inl (omega arith)) page_apart

-- A slab at 64 with one free object of 16 bytes at 0x1010, in a page that begins with 64.
abbrev one_object : ℕ → ℕ
one_object a =
    if a == 64
    then 16
    else (if a == 65 then 16 else (if a == 72 then 16 else (if a == 0x1000 then 64 else 0)))

abbrev small_heap : Pmm
small_heap = record four_pages { mem = one_object }

one_object-IsFree : IsFree one_object 64 16 (0x1010 ∷ [])
unfolding load_bytes
one_object-IsFree = record {
  chain = (refl, λ e. omega (arith, e), omega arith, tt, refl);
  apart = (inl (omega arith), tt);
  object_size = refl;
  enough = (omega arith, omega arith);
}

header_word : load64 one_object (page_start 0x1010) ≡ 64
unfolding load_bytes
header_word = refl

free-slab_alloc_example :
    (s1 : Pmm) × (slab_alloc 4096 64 small_heap ≡ ok 0x1010 s1)
    × (s2 : Pmm) × (Slab.free 4096 0x1010 s1 ≡ ok tt s2)
    × IsFree s2.mem 64 16 (0x1010 ∷ [])
free-slab_alloc_example =
    free-slab_alloc 4096 64 16 0x1010 small_heap one_object-IsFree (omega arith) header_word
      (inl (omega arith))

free-big_malloc_example :
    (ptr : ℕ) × (t : Pmm) × (u : Pmm) × (big_malloc offset 100 four_pages ≡ ok ptr t)
    × (Slab.free offset ptr t ≡ ok tt u)
    × ((j : ℕ) → j < 2048 → is_used u j ≡ is_used four_pages j)
    × (u.used_memory ≡ 0x2000)
    × IsValid offset u
free-big_malloc_example =
    free-big_malloc offset 100 four_pages refl four_pages-IsValid (omega arith) alloc_pair

malloc_lem_example :
    ((1024 < 100) × (malloc 4096 16 100 ten_slabs ≡ big_malloc 4096 100 ten_slabs))
    ⊎ ((i : ℕ) × (i < 10)
        × (malloc 4096 16 100 ten_slabs ≡ slab_alloc 4096 (16 + 16 * i) ten_slabs)
        × (100 ≤ load64 slab_sizes (16 + 16 * i + 8))
        × ((k : ℕ) → k < i → load64 slab_sizes (16 + 16 * k + 8) < 100))
malloc_lem_example = malloc_lem 4096 16 100 ten_slabs ten_slabs-HasSizes (λ e. omega (arith, e))
