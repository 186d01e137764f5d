-- ===== src/Memory/Physical/Scan.antt =====
-- What `inner_alloc` of kernel/memory/physical.cpp finds.
use ice.Prelude.{
  ℕ, zero, suc, ◌+◌, ◌-◌, ◌*◌, ◌≤◌, ◌<◌, ◌≡◌, ◌⊎◌, inl, inr, refl, ap, ◌∙◌, arith, ◌==◌, ltb, leb,
  Bool, true, false, ◌&&◌, if◌then◌else◌, Bool-cases, ==_iff, ne→==,
}
use native.Mathlib.Nat.{le_trans}
use native.Mathlib.Decide.{dec_lt, ℕ_discrete}
use ice.Utils.Bitmap.Laws.{get-set, set_outside}
use ice.Memory.Physical.{Pmm, is_used, mark, mark_range, inner_alloc, page_size}

-- Marking a range changes the memory alone.
pub mark_range-eq :
    (left : ℕ) (s : Pmm) (page : ℕ) (v : Bool)
    → mark_range left s page v ≡ record s { mem = (mark_range left s page v).mem }
unfolding mark_range mark
mark_range-eq zero s page v = refl
mark_range-eq (suc left) s page v = mark_range-eq left (mark s page v) (page + 1) v

-- For pages below 2048, the pages of the range read as marked and the others as before.
pub is_used-mark_range :
    (left : ℕ) (s : Pmm) (page : ℕ) (v : Bool) (j : ℕ)
    → page + left ≤ 2048
    → j < 2048
    → is_used (mark_range left s page v) j
      ≡ (if leb page j && ltb j (page + left) then v else is_used s j)
unfolding mark_range
is_used-mark_range zero s page v j h l = ground arith
is_used-mark_range (suc left) s page v j h l =
    ground (arith, is_used-mark_range left (mark s page v) (page + 1) v j, marked_once)
  where
    marked_once : is_used (mark s page v) j ≡ (if page == j then v else is_used s j)
    marked_once = unfold is_used mark in get-set s.mem s.bitmap page j v (omega arith) l

-- It writes inside the first 256 bytes of the bitmap's buffer.
pub mark_range_outside :
    (left : ℕ) (s : Pmm) (page : ℕ) (v : Bool) (a : ℕ)
    → page + left ≤ 2048
    → (a < s.bitmap.buffer) ⊎ (s.bitmap.buffer + 256 ≤ a)
    → (mark_range left s page v).mem a ≡ s.mem a
unfolding mark_range mark
mark_range_outside zero s page v a h o = refl
mark_range_outside (suc left) s page v a h o =
    mark_range_outside left (mark s page v) (page + 1) v a (omega arith) o
    ∙ set_outside s.mem s.bitmap page v a (omega arith) (omega arith)

-- A run of `count` free pages between `lo` and `limit`, which is now in use.
pub record Found (count lo limit : ℕ) (s : Pmm) (result : ℕ × Pmm) : Type 0 where
  pub page : ℕ
  pub above : lo ≤ page
  pub below : page + count ≤ limit
  pub was_free : (j : ℕ) → page ≤ j → j < page + count → is_used s j ≡ false
  pub taken :
      result
      ≡ (page * page_size, mark_range count (record s { last_index = page + count }) page true)

-- Every run of `count` pages there has a page in use, and only `last_index` has moved.
pub record Missing (count lo limit : ℕ) (s : Pmm) (result : ℕ × Pmm) : Type 0 where
  pub blocked :
      (page : ℕ)
      → lo ≤ page
      → page + count ≤ limit
      → (j : ℕ) × (page ≤ j) × (j < page + count) × (is_used s j ≡ true)
  pub unchanged : result ≡ (0, record s { last_index = limit })

abbrev pub Scanned : ℕ → ℕ → ℕ → Pmm → ℕ × Pmm → Type 0
Scanned count lo limit s result = Found count lo limit s result ⊎ Missing count lo limit s result

-- A page in use within the window of `count` pages from `page` on.
abbrev UsedIn : ℕ → Pmm → ℕ → Type 0
UsedIn count s page = (j : ℕ) × (page ≤ j) × (j < page + count) × (is_used s j ≡ true)

-- The rest of the scan, which begins one page further on, and takes runs from `lo'` on.
Scanned-step :
    (count lo lo' left : ℕ) (s : Pmm) {r : ℕ × Pmm}
    → lo ≤ lo'
    → ((page : ℕ) → lo ≤ page → page < lo' → UsedIn count s page)
    → Scanned count lo' (s.last_index + 1 + left) (record s { last_index = s.last_index + 1 }) r
    → Scanned count lo (s.last_index + suc left) s r
unfolding is_used
Scanned-step count lo lo' left s h near (inl f) = inl record {
  page = f.page;
  above = le_trans h f.above;
  below = omega (arith, f.below);
  was_free = f.was_free;
  taken = f.taken;
}
Scanned-step count lo lo' left s h near (inr f) = inr record {
  blocked = λ page l b. elim (dec_lt page lo') [
    | yes q ↦ near page l q
    | no q ↦ f.blocked page (omega arith) (omega arith)
  ];
  unchanged = f.unchanged ∙ ap (λ t. (0, record s { last_index = t })) (omega arith);
}

-- `p` free pages lie before `last_index`.
pub inner_alloc-Scanned :
    (left count p lo : ℕ) (s : Pmm)
    → p < count
    → lo + p ≡ s.last_index
    → ((j : ℕ) → lo ≤ j → j < s.last_index → is_used s j ≡ false)
    → Scanned count lo (s.last_index + left) s (inner_alloc left count p s)
unfolding inner_alloc
inner_alloc-Scanned zero count p lo s pc e run = inr record {
  blocked = λ page l h. absurd (omega arith);
  unchanged = ap (λ t. (0, record s { last_index = t })) (omega arith);
}
inner_alloc-Scanned (suc left) count p lo s pc e run = elim (Bool-cases (is_used s s.last_index)) [
  | inl used ↦ rw used (
      Scanned-step count lo (s.last_index + 1) left s (omega arith)
        (λ page l h. (s.last_index, omega arith, omega arith, used))
        (inner_alloc-Scanned left count 0 (s.last_index + 1) next (omega arith) (omega arith)
          (λ j l h. absurd (omega arith))))
  | inr free ↦
      let longer : (j : ℕ) → lo ≤ j → j < s.last_index + 1 → is_used s j ≡ false = λ j l h.
        elim (dec_lt j s.last_index) [
          | yes q ↦ run j l q
          | no q ↦ let z : j ≡ s.last_index = omega arith in rw z free
        ] in
      elim (ℕ_discrete (p + 1) count) [
        | yes last ↦
            rw (free, (==_iff (p + 1) count).1 last)
              (inl record {
                page = lo;
                above = omega arith;
                below = omega arith;
                was_free = λ j l h. longer j l (omega arith);
                taken = taken_at last;
              })
        | no more ↦
            rw (free, ne→== (p + 1) count more)
              (Scanned-step count lo lo left s (omega arith) (λ page l h. absurd (omega arith))
                (inner_alloc-Scanned left count (p + 1) lo next (omega arith) (omega arith)
                  (longer_next longer)))
      ]
]
  where
    next : Pmm
    next = record s { last_index = s.last_index + 1 }

    taken_at :
        p + 1 ≡ count
        → ◌≡◌ {A = ℕ × Pmm}
            (
              (s.last_index + 1 - count) * page_size,
              mark_range
                  (s.last_index + 1 - (s.last_index + 1 - count))
                  next
                  (s.last_index + 1 - count)
                  true,
            )
            (lo * page_size, mark_range count (record s { last_index = lo + count }) lo true)
    taken_at last =
        let end : s.last_index + 1 ≡ lo + count = omega arith in
        let start : lo + count - count ≡ lo = omega arith in
        let size : lo + count - lo ≡ count = omega arith in rw (end, start, size)

    longer_next :
        ((j : ℕ) → lo ≤ j → j < s.last_index + 1 → is_used s j ≡ false)
        → (j : ℕ) → lo ≤ j
        → j < s.last_index + 1
        → is_used next j ≡ false
    longer_next h = unfold is_used in h
