-- ===== src/Memory/Physical/Free.antt =====
-- `free` of kernel/memory/physical.cpp, and what it undoes.
use ice.Prelude.{
  ℕ, ◌+◌, ◌*◌, ◌/◌, ◌≤◌, ◌<◌, ◌≡◌, ◌≢◌, ◌⊎◌, inl, inr, refl, sym, ap, ◌∙◌, arith, ltb, leb, false,
  ◌&&◌, if◌then◌else◌, Bool-cases, ne→==, min, max,
}
use native.Mathlib.Decide.{dec_lt}
use ice.Utils.Math.{sub64}
use ice.Memory.Physical.{Pmm, is_used, mark_range, page_size, done, alloc, free}
use ice.Memory.Physical.Scan.{mark_range-eq, is_used-mark_range}
use ice.Memory.Physical.Alloc.{limit, ApartFromBitmap, page_addr, IsValid, Allocated}
use ice.Memory.Physical.Retry.{alloc-Allocated}

-- What `free` of `count` pages from `page` on does.
pub record Freed (count page : ℕ) (s s' : Pmm) : Type 0 where
  pub bits :
      (j : ℕ)
      → j < 2048
      → is_used s' j ≡ (if leb page j && ltb j (page + count) then false else is_used s j)
  pub cursor : s'.last_index ≡ min s.last_index page
  pub accounted : s'.used_memory ≡ sub64 s.used_memory (count * page_size)
  pub same_bitmap : s'.bitmap ≡ s.bitmap
  pub same_top : s'.mem_usable_top ≡ s.mem_usable_top

freed : ℕ → ℕ → Pmm → Pmm
freed count page s = record s {
  mem = (mark_range count s page false).mem;
  last_index = min s.last_index page;
  used_memory = sub64 s.used_memory (count * page_size);
}

free-eq :
    (count page : ℕ) (s : Pmm) → 1 ≤ page → free (page * page_size) count s ≡ freed count page s
unfolding free freed
free-eq count page s h =
    let p : page * page_size / page_size ≡ page = omega arith in
    let n : page * page_size ≢ 0 = omega arith in
    rw (p, ne→== (page * page_size) 0 n)
      (ap
        (λ (t : Pmm). record t {
          last_index = min t.last_index page;
          used_memory = sub64 t.used_memory (count * page_size);
        })
        (mark_range-eq count s page false))

freed-Freed :
    (count page : ℕ) (s : Pmm) → page + count ≤ 2048 → Freed count page s (freed count page s)
unfolding freed is_used
freed-Freed count page s l = record {
  bits = λ j b.
      ap (λ t. is_used t j) (sym (mark_range-eq count s page false))
      ∙ is_used-mark_range count s page false j l b;
  cursor = refl;
  accounted = refl;
  same_bitmap = refl;
  same_top = refl;
}

module _ (hhdm : ℕ) where
  -- In a valid state, so with at most 2048 pages, `free` of pages past page 0 and within the
  -- memory, none of which holds a byte
  -- of the bitmap, makes exactly these pages free, moves the cursor back to the first of them if it
  -- stood behind it, takes their size from the used memory and leaves a valid state.
  pub free_lem :
      (count page : ℕ) (s : Pmm)
      → IsValid hhdm s
      → 1 ≤ page
      → page + count ≤ limit s
      → ((j : ℕ)
          → page ≤ j
          → j < page + count
          → ApartFromBitmap s (page_addr hhdm j) (page_addr hhdm j + page_size))
      → Freed count page s (free (page * page_size) count s)
        × IsValid hhdm (free (page * page_size) count s)
  free_lem count page s v h l apart = rw (free-eq count page s h) (
    did,
    record {
      small = unfold freed in v.small;
      cursor = unfold freed in omega (arith, l);
      mapped = unfold freed in v.mapped;
      zero_used = did.bits 0 (omega arith) ∙ ground (arith, v.zero_used);
      guarded =
          unfold freed in
          λ p b e. elim (Bool-cases (leb page p && ltb p (page + count))) [
            | inl r ↦ apart p (ground arith) (ground arith)
            | inr r ↦ v.guarded p b (ground (arith, did.bits p (omega (arith, v.small))))
          ];
    },
  )
    where
      did : Freed count page s (freed count page s)
      did = freed-Freed count page s (omega (arith, v.small))

  -- From a valid state, so with at most 2048 pages, two calls of `alloc` for one page or more that
  -- follow one another and succeed return blocks that do not overlap.
  pub alloc_disjoint :
      (count1 count2 : ℕ) (s : Pmm) {p1 p2 : ℕ} {s1 s2 : Pmm}
      → 1 ≤ count1
      → 1 ≤ count2
      → IsValid hhdm s
      → alloc hhdm count1 s ≡ done p1 s1
      → alloc hhdm count2 s1 ≡ done p2 s2
      → (p1 + count1 * page_size ≤ p2) ⊎ (p2 + count2 * page_size ≤ p1)
  alloc_disjoint count1 count2 s {p1} {p2} {s1} {s2} c1 c2 v e1 e2 =
      elim (dec_lt b.page (a.page + count1)) [
        | no q ↦ inl (omega (arith, a.at, b.at))
        | yes q ↦ elim (dec_lt a.page (b.page + count2)) [
          | no r ↦ inr (omega (arith, a.at, b.at))
          | yes r ↦
              absurd
                (shared (max a.page b.page) (omega arith) (omega arith) (omega arith) (omega arith))
        ]
      ]
    where
      a : Allocated hhdm count1 s p1 s1
      a = alloc-Allocated hhdm count1 s c1 v e1

      b : Allocated hhdm count2 s1 p2 s2
      b = alloc-Allocated hhdm count2 s1 c2 a.valid e2

      shared : (j : ℕ) → a.page ≤ j → j < a.page + count1 → b.page ≤ j → j < b.page + count2 → ⊥
      shared j l1 h1 l2 h2 =
          ground (arith, a.bits j (omega (arith, a.within, v.small)), b.was_free j l2 h2)
