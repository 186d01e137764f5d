-- ===== src/Memory/Physical/History/Isolation.antt =====
-- What `alloc` and `free` of kernel/memory/physical.cpp leave of the blocks that others hold.
use ice.Prelude.{
  ℕ, ◌+◌, ◌/◌, ◌^◌, ◌≤◌, ◌<◌, ◌≡◌, ◌⊎◌, inl, inr, refl, sym, ap, ◌∙◌, arith, true, false, ◌==◌,
  List, [], ◌∷◌, Bool-cases,
}
use ice.Utils.Bitmap.{Bitmap}
use ice.Memory.Physical.{Pmm, is_used, page_size, done, alloc, free}
use ice.Memory.Physical.Alloc.{limit, page_addr, IsValid}
use ice.Memory.Physical.Retry.{alloc-Allocated}
use ice.Memory.Physical.Scan.{mark_range_outside}
use ice.Memory.Physical.History.{Reach, Reach-Refines}
use ice.Memory.Physical.History.Blocks.{Block, holds, covers, Separate}

-- A page of a block was free at the start.
covered_free :
    (s : Pmm) (live : List Block) (j : ℕ)
    → Separate s live
    → covers live j ≡ true
    → (j < limit s) × (is_used s j ≡ false)
covered_free s [] j f h = absurd (ground arith)
covered_free s (b ∷ live) j f h = elim (Bool-cases (holds b j)) [
  | inl y ↦ (ground (arith, f.0.within), f.0.was_free j y)
  | inr n ↦ covered_free s live j f.1 (ground (arith, n))
]

module _ {hhdm : ℕ} {s t : Pmm} {live : List Block} (v : IsValid hhdm s)
    (w : s.used_memory < 2 ^ 64) (r : Reach hhdm s t live) where
  -- A byte of a block misses the bitmap.
  byte_apart :
      (a j : ℕ)
      → covers live j ≡ true
      → page_addr hhdm j ≤ a
      → a < page_addr hhdm j + page_size
      → (a < t.bitmap.buffer) ⊎ (t.bitmap.buffer + 256 ≤ a)
  byte_apart a j c lo hi =
      let now = Reach-Refines v w r in
      let (l, f) = covered_free s live j now.separate c in
      omega (arith, v.guarded j l f, ap (λ (b : Bitmap). b.buffer) now.same_bitmap)

  alloc_isolated :
      (count : ℕ) {ptr : ℕ} {u : Pmm} (a j : ℕ)
      → 1 ≤ count
      → alloc hhdm count t ≡ done ptr u
      → covers live j ≡ true
      → page_addr hhdm j ≤ a
      → a < page_addr hhdm j + page_size
      → u.mem a ≡ t.mem a
  alloc_isolated count {ptr} {u} a j c e h lo hi =
      let now = Reach-Refines v w r in
      let got = alloc-Allocated hhdm count t c now.valid e in
      let (l, f) = covered_free s live j now.separate h in
      let taken : is_used t j ≡ true = ground (arith, now.exact j (omega (arith, l, v.small)), h) in
      got.kept a (ground (arith, got.was_free j, taken)) (byte_apart a j h lo hi)

  free_outside :
      (ptr count a : ℕ)
      → ptr / page_size + count ≤ 2048
      → (a < t.bitmap.buffer) ⊎ (t.bitmap.buffer + 256 ≤ a)
      → (free ptr count t).mem a ≡ t.mem a
  unfolding free
  free_outside ptr count a l o = elim (Bool-cases (ptr == 0)) [
    | inl y ↦ rw y refl
    | inr n ↦ rw n (mark_range_outside count t (ptr / page_size) false a l o)
  ]

  -- After a history of calls from a valid state with a number of used bytes of 64 bits, neither a successful call of `alloc` for one page or more nor a call
  -- of `free` for pages below 2048 changes a byte of the blocks that are handed out.
  pub calls_isolated :
      (ptr count : ℕ) (u : Pmm) (a j : ℕ)
      → 1 ≤ count
      → (alloc hhdm count t ≡ done ptr u)
        ⊎ ((free ptr count t ≡ u) × (ptr / page_size + count ≤ 2048))
      → covers live j ≡ true
      → page_addr hhdm j ≤ a
      → a < page_addr hhdm j + page_size
      → u.mem a ≡ t.mem a
  calls_isolated ptr count u a j c (inl e) h lo hi = alloc_isolated count a j c e h lo hi
  calls_isolated ptr count u a j c (inr (e, l)) h lo hi =
      ap (λ (x : Pmm). x.mem a) (sym e) ∙ free_outside ptr count a l (byte_apart a j h lo hi)
