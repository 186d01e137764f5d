-- ===== src/Memory/Physical/Alloc.antt =====
-- The correctness of `alloc` of kernel/memory/physical.cpp, for memory of at most 2048 pages.
use ice.Prelude.{
  ℕ, ◌+◌, ◌-◌, ◌*◌, ◌/◌, ◌%◌, ◌^◌, ◌≤◌, ◌<◌, ◌≡◌, ◌⊎◌, inl, inr, refl, sym, ap, ◌∙◌, arith, ltb,
  leb, true, false, ◌&&◌, if◌then◌else◌, Mem,
}
use native.Mathlib.Decide.{dec_lt, ℕ_discrete}
use ice.Utils.Math.{tohh, add64}
use ice.Utils.Bitmap.Laws.{get-frame}
use ice.Libc.String.{memset}
use ice.Libc.String.Block.{IsWritten, memset-IsWritten}
use ice.Memory.Physical.{Pmm, is_used, mark_range, page_size, done, finish}
use ice.Memory.Physical.Scan.{mark_range-eq, is_used-mark_range, mark_range_outside, Found}

abbrev pub limit : Pmm → ℕ
limit s = s.mem_usable_top / page_size

-- The bytes `[lo, hi)` lie apart from what the bitmap's buffer is read from.
abbrev pub ApartFromBitmap : Pmm → ℕ → ℕ → Type 0
ApartFromBitmap s lo hi = (hi ≤ s.bitmap.buffer) ⊎ (s.bitmap.buffer + 256 ≤ lo)

module _ (hhdm : ℕ) where
  -- The page's first byte in the direct map.
  abbrev pub page_addr : ℕ → ℕ
  page_addr page = page * page_size + hhdm

  -- The bitmap's reach covers the memory, the cursor lies within, page 0 is never handed out, and
  -- no free page holds a byte of the bitmap.
  pub record IsValid (s : Pmm) : Type 0 where
    pub small : limit s ≤ 2048
    pub cursor : s.last_index ≤ limit s
    pub mapped : (s.mem_usable_top ≤ hhdm) × (s.mem_usable_top + hhdm < 2 ^ 64)
    pub zero_used : is_used s 0 ≡ true
    pub guarded :
        (page : ℕ)
        → page < limit s
        → is_used s page ≡ false
        → ApartFromBitmap s (page_addr page) (page_addr page + page_size)

  -- What a successful call for `count` pages does.
  pub record Allocated (count : ℕ) (s : Pmm) (ptr : ℕ) (s' : Pmm) : Type 0 where
    pub page : ℕ
    pub at : ptr ≡ page * page_size
    pub positive : 1 ≤ page
    pub within : page + count ≤ limit s
    pub was_free : (j : ℕ) → page ≤ j → j < page + count → is_used s j ≡ false
    pub bits :
        (j : ℕ)
        → j < 2048
        → is_used s' j ≡ (if leb page j && ltb j (page + count) then true else is_used s j)
    pub zeroed : (a : ℕ) → page_addr page ≤ a → a < page_addr (page + count) → s'.mem a ≡ 0
    pub kept :
        (a : ℕ)
        → (a < page_addr page) ⊎ (page_addr (page + count) ≤ a)
        → (a < s.bitmap.buffer) ⊎ (s.bitmap.buffer + 256 ≤ a)
        → s'.mem a ≡ s.mem a
    pub accounted : s'.used_memory ≡ add64 s.used_memory (count * page_size)
    pub same_bitmap : s'.bitmap ≡ s.bitmap
    pub same_top : s'.mem_usable_top ≡ s.mem_usable_top
    pub valid : IsValid s'

  pub tohh-page :
      (s : Pmm) (page : ℕ)
      → IsValid s
      → page < limit s
      → tohh hhdm (page * page_size) ≡ page_addr page
  unfolding tohh
  tohh-page s page v h = ground (arith, v.mapped)

  -- The bytes of a run of free pages miss the bitmap.
  run_apart :
      (s : Pmm) (page count a : ℕ)
      → IsValid s
      → page + count ≤ limit s
      → ((j : ℕ) → page ≤ j → j < page + count → is_used s j ≡ false)
      → s.bitmap.buffer ≤ a
      → a < s.bitmap.buffer + 256
      → (a < page_addr page) ⊎ (page_addr (page + count) ≤ a)
  run_apart s page count a v w free lo hi = elim (dec_lt a (page_addr page)) [
    | yes q ↦ inl q
    | no q ↦ elim (dec_lt a (page_addr (page + count))) [
      | no r ↦ inr (omega arith)
      | yes r ↦
          let k = (a - hhdm) / page_size in
          absurd (omega (arith, v.guarded k (omega arith) (free k (omega arith) (omega arith))))
    ]
  ]

  module _ (count lo hi : ℕ) (s : Pmm) (r : ℕ × Pmm) (c : 1 ≤ count) (v : IsValid s)
      (f : Found count lo hi s r) (h : hi ≤ limit s) where
    within : f.page + count ≤ limit s
    within = omega (arith, f.below)

    -- The memory after the marking, and the state at the end.
    marked : Mem
    marked = (mark_range count (record s { last_index = f.page + count }) f.page true).mem

    pub final : Pmm
    final = record s {
      mem = memset marked (page_addr f.page) 0 (count * page_size);
      last_index = f.page + count;
      used_memory = add64 s.used_memory (count * page_size);
    }

    pub finish-eq : finish hhdm count r ≡ done (f.page * page_size) final
    unfolding finish final marked
    finish-eq =
        ap (finish hhdm count) f.taken
        ∙ ap (λ t. finish hhdm count (f.page * page_size, t))
            (mark_range-eq count (record s { last_index = f.page + count }) f.page true)
        ∙ rw (tohh-page s f.page v (omega (arith, within)))

    wiped :
        IsWritten
          (page_addr f.page)
          (page_addr f.page + count * page_size)
          (λ a. 0 % 2 ^ 8)
          marked
          final.mem
    unfolding final
    wiped = memset-IsWritten marked (page_addr f.page) 0 (count * page_size)

    not_bitmap :
        (a : ℕ)
        → s.bitmap.buffer ≤ a
        → a < s.bitmap.buffer + 256
        → (a < page_addr f.page) ⊎ (page_addr (f.page + count) ≤ a)
    not_bitmap a = run_apart s f.page count a v within f.was_free

    final_bits :
        (j : ℕ)
        → j < 2048
        → is_used final j ≡ (if leb f.page j && ltb j (f.page + count) then true else is_used s j)
    unfolding is_used final marked
    final_bits j l =
        get-frame marked final.mem s.bitmap j
          (λ a lo hi. wiped.outside a (omega (arith, not_bitmap a lo hi)))
        ∙ ap (λ t. is_used t j)
            (sym (mark_range-eq count (record s { last_index = f.page + count }) f.page true))
        ∙ is_used-mark_range count (record s { last_index = f.page + count }) f.page true j
            (omega (arith, within, v.small)) l

    pub run_positive : 1 ≤ f.page
    run_positive = elim (ℕ_discrete f.page 0) [
      | no ne ↦ omega arith
      | yes z ↦ cc (sym v.zero_used, f.was_free 0 (omega arith) (omega arith))
    ]

    final-IsValid : IsValid final
    final-IsValid = record {
      small = unfold final in v.small;
      cursor = unfold final in within;
      mapped = unfold final in v.mapped;
      zero_used = final_bits 0 (omega arith) ∙ ground (arith, run_positive, v.zero_used);
      guarded =
          unfold final in
          λ page l free. v.guarded page l (ground (arith, final_bits page, v.small));
    }

    pub finish-Allocated : Allocated count s (f.page * page_size) final
    finish-Allocated = record {
      page = f.page;
      at = refl;
      positive = run_positive;
      within = within;
      was_free = f.was_free;
      bits = final_bits;
      zeroed = λ a lo hi. wiped.inside a lo (omega arith);
      kept = λ a o b.
          wiped.outside a (omega arith)
          ∙ unfold marked in
            mark_range_outside count (record s { last_index = f.page + count }) f.page true a
              (omega (arith, within, v.small)) b;
      accounted = unfold final in refl;
      same_bitmap = unfold final in refl;
      same_top = unfold final in refl;
      valid = final-IsValid;
    }
