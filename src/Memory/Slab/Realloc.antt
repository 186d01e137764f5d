-- ===== src/Memory/Slab/Realloc.antt =====
-- Moving a small object to a slab of another size: `realloc` of kernel/memory/memory.cpp.
use ice.Prelude.{
  ℕ, ◌+◌, ◌%◌, ◌^◌, ◌<◌, ◌≤◌, ◌≡◌, ◌∙◌, arith, refl, List, ◌∷◌, Mem, load64, load_bytes_ext,
  bit_and_mask, ne→==, ltb, if◌then◌else◌, store64, store_bytes_outside,
}
use ice.Libc.String.{memcpy}
use ice.Libc.String.Block.{memcpy_lem}
use ice.Memory.Physical.{Pmm}
use ice.Memory.Slab.{Run, ok, slab_alloc, slab_free, malloc, realloc, move}
use ice.Memory.Slab
use ice.Memory.Slab.FreeList.{IsFree, slab_alloc-pop}
use ice.Memory.Slab.FreeList.Chain.{Disjoint}
use ice.Memory.Slab.Roundtrip.{page_start, mask-page_start, free-slab_free}

-- `x` is an object of `n` bytes of the slab at `a`, in a page that begins with the slab's address.
pub record IsObject (m : Mem) (a n x : ℕ) : Type 0 where
  pub inner : 8 ≤ x % 0x1000
  pub word : x < 2 ^ 64
  pub header : load64 m (page_start x) ≡ a
  pub object_size : load64 m (a + 8) ≡ n
  pub enough : 8 ≤ n

-- The bytes that another slab at `b` and its object `y` of `k` bytes must spare.
pub record Spares (a n x b k y : ℕ) : Type 0 where
  pub object : Disjoint x n y k
  pub slab : Disjoint a 16 y k
  pub header : Disjoint (page_start x) 8 y k
  pub other_object : Disjoint x n b 8
  pub other_size : Disjoint (a + 8) 8 b 8
  pub other_header : Disjoint (page_start x) 8 b 8

module _ (hhdm slabs size a n x b k y : ℕ) (s : Pmm) {ys : List ℕ} (o : IsObject s.mem a n x)
    (f : IsFree s.mem b k (y ∷ ys)) (d : Spares a n x b k y) (some : 1 ≤ size) (fits : size ≤ k)
    (from : malloc hhdm slabs size s ≡ slab_alloc hhdm b s) where
  count : ℕ
  count = if ltb size n then size else n

  count_small : (count ≤ size) × (count ≤ n) × (count ≤ k)
  unfolding count
  count_small = ground (arith, fits)

  popped : Pmm
  popped = (slab_alloc-pop hhdm b k y s f).0

  copied : Pmm
  copied = record popped { mem = memcpy popped.mem y x count }

  got : malloc hhdm slabs size s ≡ ok y popped
  unfolding popped
  got = from ∙ (slab_alloc-pop hhdm b k y s f).1

  -- The calls before the last one spare the bytes of the old object, its header and its slab.
  popped_kept : (c : ℕ) → Disjoint y k c 1 → Disjoint b 8 c 1 → popped.mem c ≡ s.mem c
  unfolding popped
  popped_kept = (slab_alloc-pop hhdm b k y s f).4

  copied_kept : (c : ℕ) → Disjoint y k c 1 → Disjoint b 8 c 1 → copied.mem c ≡ s.mem c
  unfolding copied count
  copied_kept c p q =
      (memcpy_lem popped.mem y x count (omega (arith, d.object, count_small))).1 c
        (omega (arith, count_small))
      ∙ popped_kept c p q

  word_kept : (c : ℕ) → Disjoint c 8 y k → Disjoint c 8 b 8 → load64 copied.mem c ≡ load64 s.mem c
  word_kept c p q =
      load_bytes_ext 8 copied.mem s.mem c (λ e l h. copied_kept e (omega arith) (omega arith))

  moved : Pmm
  moved = record copied { mem = store64 (store64 copied.mem x (load64 copied.mem a)) a x }

  freed : Slab.free hhdm x copied ≡ ok tt moved
  unfolding moved slab_free
  freed =
      free-slab_free hhdm a x copied (λ e. omega (arith, e, o.inner)) o.word
        (word_kept (page_start x) d.header d.other_header ∙ o.header)
      ∙ rw (ne→== x 0 (λ e. omega (arith, e, o.inner))) refl

  realloc-moved : realloc hhdm slabs x size s ≡ ok y moved
  unfolding realloc move copied count
  realloc-moved = ground (
    arith,
    ne→== x 0 (λ e. omega (arith, e, o.inner)),
    bit_and_mask 12 x,
    ne→== (x % 0x1000) 0 (λ e. omega (arith, e, o.inner)),
    mask-page_start x o.word,
    o.header,
    o.object_size,
    ne→== size 0 (λ e. omega (arith, e, some)),
    got,
    ne→== y 0 f.chain.1,
    freed,
  )

  -- Let `x` be an object of a slab, and let the heap take a request of `size` bytes, one or more, from
  -- another free object `y` that holds them and spares the old object, its slab and its page's header.
  -- Then `realloc` returns `y`, which begins with the bytes of the old object as far as both go.
  pub realloc_lem :
      (s' : Pmm) × (realloc hhdm slabs x size s ≡ ok y s')
      × ((j : ℕ) → j < size → j < n → s'.mem (y + j) ≡ s.mem (x + j))
  unfolding moved count
  realloc_lem = (
    moved,
    realloc-moved,
    λ j l h.
        store_bytes_outside 8 (store64 copied.mem x (load64 copied.mem a)) a x (y + j)
          (omega (arith, d.slab, fits))
        ∙ store_bytes_outside 8 copied.mem x (load64 copied.mem a) (y + j)
            (omega (arith, d.object, fits, o.enough))
        ∙ unfold copied in
          (memcpy_lem popped.mem y x count (omega (arith, d.object, count_small))).0 j
            (ground arith)
          ∙ popped_kept (x + j) (omega (arith, d.object)) (omega (arith, d.other_object)),
  )
