-- ===== src/Memory/Slab/FreeList.antt =====
-- A slab's chain of free objects, kernel/memory/memory.cpp, is a stack.
pub mod Chain
use ice.Prelude.{
  ℕ, ◌+◌, ◌≤◌, ◌<◌, ◌^◌, ◌≡◌, ◌≢◌, ◌⊎◌, inl, inr, List, [], ◌∷◌, refl, sym, ap, ◌∙◌, arith, Mem,
  load64, store64, load64-store64, load64-store64_ne, store_bytes_outside, load_bytes_ext, ne→==,
  if◌then◌else◌, ◌==◌,
}
use mathlib.Core.Path.{subst}
use ice.Libc.String.{memset}
use ice.Libc.String.Block.{memset-IsWritten}
use ice.Memory.Physical.{Pmm}
use ice.Memory.Slab.{Run, ok, slab_alloc, slab_free}
use ice.Memory.Slab.FreeList.Chain.{
  IsChain, Away, Disjoint, IsChain-frame, IsChain-bound, load64-memset,
}

-- The free objects of the slab, the next one to be handed out first.
pub record IsFree (m : Mem) (slab size : ℕ) (xs : List ℕ) : Type 0 where
  pub chain : IsChain size m (load64 m slab) xs
  pub apart : Away slab 16 size xs
  pub object_size : load64 m (slab + 8) ≡ size
  pub enough : (8 ≤ size) × (size < 2 ^ 64)

-- An object that lies apart from the slab and its free objects is pushed by `slab_t::free`: it is
-- the next to be handed out, before those that were free, and its first word and the slab's are all
-- that changes.
pub slab_free-push :
    (slab size ptr : ℕ) (s : Pmm) {xs : List ℕ}
    → IsFree s.mem slab size xs
    → ptr ≢ 0
    → ptr < 2 ^ 64
    → Disjoint slab 16 ptr size
    → Away ptr size size xs
    → (s' : Pmm) × (slab_free slab ptr s ≡ ok tt s')
      × IsFree s'.mem slab size (ptr ∷ xs)
      × ((a : ℕ) → Disjoint ptr 8 a 1 → Disjoint slab 8 a 1 → s'.mem a ≡ s.mem a)
unfolding slab_free
slab_free-push slab size ptr s {xs} f ne w apart away = (
  record s { mem = m2 },
  rw (ne→== ptr 0 ne),
  record {
    chain = (
      head_word,
      ne,
      w,
      away,
      subst (λ t. IsChain size m2 t xs) (sym link_word)
          (IsChain-frame size m1 m2 slab 16 head xs f.enough.0 f.apart
            (λ b d. load64-store64_ne m1 slab ptr b (omega arith))
            (IsChain-frame size s.mem m1 ptr size head xs f.enough.0 away
              (λ b d. load64-store64_ne s.mem ptr head b (omega (arith, f.enough))) f.chain)),
    );
    apart = (apart, f.apart);
    object_size =
        load64-store64_ne m1 slab ptr (slab + 8) (omega arith)
        ∙ load64-store64_ne s.mem ptr head (slab + 8) (omega (arith, f.enough))
        ∙ f.object_size;
    enough = f.enough;
  },
  λ a d1 d2.
      store_bytes_outside 8 m1 slab ptr a (omega arith)
      ∙ store_bytes_outside 8 s.mem ptr head a (omega arith),
)
  where
    head : ℕ
    head = load64 s.mem slab

    m1 : Mem
    m1 = store64 s.mem ptr head

    m2 : Mem
    m2 = store64 m1 slab ptr

    head_word : load64 m2 slab ≡ ptr
    head_word = load64-store64 m1 slab ptr w

    link_word : load64 m2 ptr ≡ head
    link_word =
        load64-store64_ne m1 slab ptr ptr (omega (arith, f.enough))
        ∙ load64-store64 s.mem ptr head (IsChain-bound size s.mem head xs f.chain)

-- From a slab with a free object, `slab_t::alloc` pops the next one: it returns its address, leaves
-- the others free, and the object's bytes are zero.
pub slab_alloc-pop :
    (hhdm slab size x : ℕ) (s : Pmm) {xs : List ℕ}
    → IsFree s.mem slab size (x ∷ xs)
    → (s' : Pmm) × (slab_alloc hhdm slab s ≡ ok x s')
      × IsFree s'.mem slab size xs
      × ((a : ℕ) → x ≤ a → a < x + size → s'.mem a ≡ 0)
      × ((a : ℕ) → Disjoint x size a 1 → Disjoint slab 8 a 1 → s'.mem a ≡ s.mem a)
unfolding slab_alloc
slab_alloc-pop hhdm slab size x s {xs} f = (
  record s { mem = m2 },
  rw (f.chain.0, ne→== x 0 f.chain.1, f.chain.0, size_word),
  record {
    chain =
        subst (λ t. IsChain size m2 t xs) (sym head_word)
          (IsChain-frame size m1 m2 x size next xs f.enough.0 f.chain.3
            (λ c d. load64-memset m1 x 0 size c d)
            (IsChain-frame size s.mem m1 slab 16 next xs f.enough.0 f.apart.1
              (λ c d. load64-store64_ne s.mem slab next c (omega arith)) f.chain.4));
    apart = f.apart.1;
    object_size = load64-memset m1 x 0 size (slab + 8) (omega (arith, f.apart)) ∙ size_word;
    enough = f.enough;
  },
  (memset-IsWritten m1 x 0 size).inside,
  λ a d1 d2.
      (memset-IsWritten m1 x 0 size).outside a (omega arith)
      ∙ store_bytes_outside 8 s.mem slab next a (omega arith),
)
  where
    next : ℕ
    next = load64 s.mem x

    m1 : Mem
    m1 = store64 s.mem slab next

    m2 : Mem
    m2 = memset m1 x 0 size

    size_word : load64 m1 (slab + 8) ≡ size
    size_word = load64-store64_ne s.mem slab next (slab + 8) (omega arith) ∙ f.object_size

    head_word : load64 m2 slab ≡ next
    head_word =
        load64-memset m1 x 0 size slab (omega (arith, f.apart))
        ∙ load64-store64 s.mem slab next (IsChain-bound size s.mem next xs f.chain.4)
