-- ===== src/Memory/Slab/Roundtrip.antt =====
-- Small objects handed out and given back, kernel/memory/memory.cpp.
use ice.Prelude.{
  ℕ, ◌*◌, ◌/◌, ◌%◌, ◌^◌, ◌<◌, ◌≤◌, ◌≡◌, ◌≢◌, ◌∙◌, arith, List, ◌∷◌, load64, load_bytes_ext, bit_and,
  bit_not, bit_and_mask, ne→==,
}
use ice.Utils.Math.{align_down}
use ice.Utils.Math.Align.{align_down_lem}
use ice.Memory.Physical.{Pmm}
use ice.Memory.Slab.{Run, ok, slab_alloc, slab_free}
use ice.Memory.Slab
use ice.Memory.Slab.FreeList.{IsFree, slab_alloc-pop, slab_free-push}
use ice.Memory.Slab.FreeList.Chain.{Disjoint}

-- The start of a pointer's page.
abbrev pub page_start : ℕ → ℕ
page_start x = x / 0x1000 * 0x1000

pub mask-page_start : (x : ℕ) → x < 2 ^ 64 → bit_and x (bit_not 64 0xfff) ≡ page_start x
unfolding align_down
mask-page_start x h = align_down_lem 12 x (omega arith) h

-- `free` of an object inside a page finds the slab in the page's first word.
pub free-slab_free :
    (hhdm slab x : ℕ) (s : Pmm)
    → x % 0x1000 ≢ 0
    → x < 2 ^ 64
    → load64 s.mem (page_start x) ≡ slab
    → Slab.free hhdm x s ≡ slab_free slab x s
unfolding Slab.free
free-slab_free hhdm slab x s n l h =
    let nonzero : x ≢ 0 = λ e. n (omega (arith, e)) in
    ground
      (arith, ne→== x 0 nonzero, bit_and_mask 12 x, ne→== (x % 0x1000) 0 n, mask-page_start x l, h)

-- An object that `slab_t::alloc` hands out and `free` takes back is the slab's next free object
-- again, before the same others: where it lies inside a page that begins with the slab's address,
-- and this word is apart from the object and the slab.
pub free-slab_alloc :
    (hhdm slab size x : ℕ) (s : Pmm) {xs : List ℕ}
    → IsFree s.mem slab size (x ∷ xs)
    → 8 ≤ x % 0x1000
    → load64 s.mem (page_start x) ≡ slab
    → Disjoint slab 16 (page_start x) 8
    → (s1 : Pmm) × (slab_alloc hhdm slab s ≡ ok x s1)
      × (s2 : Pmm) × (Slab.free hhdm x s1 ≡ ok tt s2)
      × IsFree s2.mem slab size (x ∷ xs)
free-slab_alloc hhdm slab size x s {xs} f inner header d =
    let (s1, taken, free, zeroed, kept) = slab_alloc-pop hhdm slab size x s f in
    let header1 : load64 s1.mem (page_start x) ≡ slab =
      load_bytes_ext 8 s1.mem s.mem (page_start x) (λ a p q. kept a (omega arith) (omega arith))
      ∙ header in
    let (s2, pushed, again, rest) =
      slab_free-push slab size x s1 free f.chain.1 f.chain.2 f.apart.0 f.chain.3 in
    (
      s1,
      taken,
      s2,
      free-slab_free hhdm slab x s1 (λ e. omega (arith, e)) f.chain.2 header1 ∙ pushed,
      again,
    )
