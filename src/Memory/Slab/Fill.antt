-- ===== src/Memory/Slab/Fill.antt =====
-- How `slab_t::init` of kernel/memory/memory.cpp fills a new page with objects.
use ice.Prelude.{
  ℕ, zero, suc, ◌+◌, ◌*◌, ◌/◌, ◌^◌, ◌<◌, ◌≤◌, ◌≡◌, ◌≢◌, ◌⊎◌, inl, refl, sym, ◌∙◌, arith, List, [],
  ◌∷◌, Mem, load64, store64, load64-store64, load64-store64_ne, store_bytes_outside, load_bytes_ext,
}
use mathlib.Core.Path.{subst}
use native.Mathlib.Nat.{add-mul, suc-mul}
use ice.Utils.Math.{tohh}
use ice.Memory.Physical
use ice.Memory.Physical.{Pmm, done}
use ice.Memory.Slab.{ok, slab_init, link_objects, first_offset, last_object, sizes}
use ice.Memory.Slab.Layout.{OneOf, FillsPage, sizes-FillsPage}
use ice.Memory.Slab.FreeList.{IsFree}
use ice.Memory.Slab.FreeList.Chain.{Disjoint, Away, IsChain}

-- `k` objects of `size` bytes, one behind the other.
abbrev pub objects : ℕ → ℕ → ℕ → List ℕ
objects a size zero = []
objects a size (suc k) = a ∷ objects (a + size) size k

-- A block before the first object or behind the last is apart from all.
objects-Away :
    (a n b size k : ℕ) → (a + n ≤ b) ⊎ (b + k * size ≤ a) → Away a n size (objects b size k)
objects-Away a n b size zero h = tt
objects-Away a n b size (suc k) h = (
  omega (arith, suc-mul k size),
  objects-Away a n (b + size) size k (omega (arith, suc-mul k size)),
)

-- The next place in the array.
next_place :
    (array count size i a : ℕ)
    → count * 8 ≡ size
    → a ≡ array + i * count * 8
    → a + size ≡ array + (i + 1) * count * 8
next_place array count size i a e h = omega (arith, add-mul i 1 count)

-- What the loop of links leaves: a chain of the objects that are left, and the rest of the memory.
record Linked (size a left : ℕ) (s s' : Pmm) : Type 0 where
  chain : IsChain size s'.mem a (objects a size (suc left))
  kept : (b : ℕ) → (b < a) ⊎ (a + suc left * size ≤ b) → s'.mem b ≡ s.mem b

link_objects-Linked :
    (left array count size i a : ℕ) (s : Pmm)
    → count * 8 ≡ size
    → 8 ≤ size
    → a ≡ array + i * count * 8
    → a ≢ 0
    → a + suc left * size ≤ 2 ^ 64
    → (s' : Pmm) × (link_objects left array count i s ≡ ok tt s') × Linked size a left s s'
unfolding link_objects
link_objects-Linked zero array count size i a s e g h n l = (
  record s { mem = store64 s.mem a 0 },
  rw (← h) refl,
  record {
    chain = (refl, n, omega arith, tt, load64-store64 s.mem a 0 (omega arith));
    kept = λ b d. store_bytes_outside 8 s.mem a 0 b (omega arith);
  },
)
link_objects-Linked (suc left) array count size i a s e g h n l =
    let m1 = store64 s.mem a (a + size) in
    let s1 : Pmm = record s { mem = m1 } in
    let next = next_place array count size i a e h in
    let (s', f, k) =
      link_objects-Linked left array count size (i + 1) (a + size) s1 e g next (omega arith)
        (omega (arith, suc-mul (suc left) size)) in
    let word : load64 s'.mem a ≡ a + size =
      load_bytes_ext 8 s'.mem m1 a (λ b p q. k.kept b (inl (omega arith)))
      ∙ load64-store64 s.mem a (a + size)
          (omega (arith, suc-mul (suc left) size, suc-mul left size)) in
    (
      s',
      rw (← h, ← next) f,
      record {
        chain = (
          refl,
          n,
          omega (arith, suc-mul (suc left) size),
          objects-Away a size (a + size) size (suc left) (inl (omega arith)),
          subst (λ t. IsChain size s'.mem t (objects (a + size) size (suc left))) (sym word)
              k.chain,
        );
        kept = λ b d.
            k.kept b (omega (arith, suc-mul (suc left) size))
            ∙ store_bytes_outside 8 s.mem a (a + size) b (omega (arith, suc-mul (suc left) size));
      },
    )

-- The page that `init` got, through the direct map, and the objects in it.
abbrev pub page_objects : ℕ → ℕ → List ℕ
page_objects head size = objects (head + first_offset size) size (suc (last_object size))

-- The memory before the links.
abbrev started : ℕ → ℕ → ℕ → Mem → Mem
started slab head array m = store64 (store64 (store64 m slab head) head slab) slab array

slab_init-link_objects :
    (hhdm slab size page : ℕ) (s s1 : Pmm)
    → Physical.alloc hhdm 1 (record s { mem = store64 s.mem (slab + 8) size }) ≡ done page s1
    → slab_init hhdm slab size s
      ≡ link_objects
          (last_object size)
          (tohh hhdm page + first_offset size)
          (size / 8)
          0
          (record s1 {
            mem = started slab (tohh hhdm page) (tohh hhdm page + first_offset size) s1.mem;
          })
unfolding slab_init
slab_init-link_objects hhdm slab size page s s1 e = ground (arith, e)

-- For one of the allocator's ten sizes, and a page apart from the slab that does not reach the end
-- of the address space, `slab_t::init` leaves a slab whose free objects are those that fill the
-- page, in order. The page begins with the slab's address, where `free` finds it; after the page was
-- allocated, which keeps the slab's size, nothing changes outside it and the slab's first word.
pub slab_init-IsFree :
    (hhdm slab size page : ℕ) (s s1 : Pmm)
    → OneOf sizes size
    → Physical.alloc hhdm 1 (record s { mem = store64 s.mem (slab + 8) size }) ≡ done page s1
    → load64 s1.mem (slab + 8) ≡ size
    → slab < 2 ^ 64
    → tohh hhdm page + 0x1000 ≤ 2 ^ 64
    → Disjoint slab 16 (tohh hhdm page) 0x1000
    → (s' : Pmm) × (slab_init hhdm slab size s ≡ ok tt s')
      × IsFree s'.mem slab size (page_objects (tohh hhdm page) size)
      × (load64 s'.mem (tohh hhdm page) ≡ slab)
      × ((a : ℕ) → Disjoint slab 8 a 1 → Disjoint (tohh hhdm page) 0x1000 a 1 → s'.mem a ≡ s1.mem a)
slab_init-IsFree hhdm slab size page s s1 o e w b h d = (
  linked.0,
  slab_init-link_objects hhdm slab size page s s1 e ∙ linked.1,
  record {
    chain =
        subst (λ t. IsChain size linked.0.mem t (page_objects head size)) (sym head_word)
          linked.2.chain;
    apart =
        objects-Away slab 16 array size (suc (last_object size))
          (omega (arith, fills.after_header, fills.inside));
    object_size =
        word_kept (slab + 8) (omega (arith, fills.inside))
        ∙ load64-store64_ne _ slab array (slab + 8) (omega arith)
        ∙ load64-store64_ne _ head slab (slab + 8) (omega arith)
        ∙ load64-store64_ne _ slab head (slab + 8) (omega arith)
        ∙ w;
    enough = (large, omega (arith, fills.inside, suc-mul (last_object size) size));
  },
  word_kept head (omega (arith, fills.after_header))
      ∙ load64-store64_ne _ slab array head (omega arith)
      ∙ load64-store64 _ head slab b,
  λ a d1 d2.
      linked.2.kept a (omega (arith, fills.after_header, fills.inside))
      ∙ store_bytes_outside 8 _ slab array a (omega arith)
      ∙ store_bytes_outside 8 _ head slab a (omega arith)
      ∙ store_bytes_outside 8 _ slab head a (omega arith),
)
  where
    head : ℕ
    head = tohh hhdm page

    fills : FillsPage size
    fills = sizes-FillsPage size o

    array : ℕ
    array = head + first_offset size

    m4 : Mem
    m4 = started slab head array s1.mem

    large : 8 ≤ size
    large = omega (
      arith,
      fills.words,
      fills.inside,
      fills.full,
      add-mul (last_object size) 1 size,
      add-mul (last_object size) 2 size,
    )

    linked :
        (s' : Pmm) × (link_objects (last_object size) array (size / 8) 0 (record s1 { mem = m4 })
          ≡ ok tt s')
        × Linked size array (last_object size) (record s1 { mem = m4 }) s'
    linked =
        link_objects-Linked (last_object size) array (size / 8) size 0 array
          (record s1 { mem = m4 }) (omega (arith, fills.words)) large (omega arith)
          (omega (arith, fills.after_header)) (omega (arith, fills.inside))

    -- The words before and after the objects are those before the links.
    word_kept :
        (a : ℕ)
        → (a + 8 ≤ array) ⊎ (array + suc (last_object size) * size ≤ a)
        → load64 linked.0.mem a ≡ load64 m4 a
    word_kept a o = load_bytes_ext 8 linked.0.mem m4 a (λ c p q. linked.2.kept c (omega (arith, o)))

    head_word : load64 linked.0.mem slab ≡ array
    head_word =
        word_kept slab (omega (arith, fills.inside))
        ∙ load64-store64 _ slab array (omega (arith, fills.inside))
