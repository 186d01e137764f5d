-- ===== src/Memory/Physical/Retry.antt =====
-- The whole of `alloc` of kernel/memory/physical.cpp: the scan from the cursor, then the one from 0.
use ice.Prelude.{
  ℕ, ◌+◌, ◌-◌, ◌*◌, ◌≤◌, ◌<◌, ◌≡◌, ◌≢◌, ◌⊎◌, inl, inr, sym, ap, ◌∙◌, arith, ◌==◌, true,
  if◌then◌else◌, ne→==,
}
use mathlib.Core.Path.{subst}
use native.Mathlib.Nat.{le_refl}
use ice.Memory.Physical.{Pmm, is_used, inner_alloc, page_size, done, out_of_memory, finish, alloc}
use ice.Memory.Physical.Scan.{Found, Scanned, inner_alloc-Scanned}
use ice.Memory.Physical.Alloc.{
  limit, IsValid, Allocated, run_positive, final, finish-eq, finish-Allocated,
}

module _ (hhdm : ℕ) where
  -- The cursor is no part of what `Allocated` says of the state before.
  Allocated-cursor :
      (count k : ℕ) (s : Pmm) {ptr : ℕ} {s' : Pmm}
      → Allocated hhdm count (record s { last_index = k }) ptr s'
      → Allocated hhdm count s ptr s'
  unfolding is_used
  Allocated-cursor count k s a = record {
    page = a.page;
    at = a.at;
    positive = a.positive;
    within = a.within;
    was_free = a.was_free;
    bits = a.bits;
    zeroed = a.zeroed;
    kept = a.kept;
    accounted = a.accounted;
    same_bitmap = a.same_bitmap;
    same_top = a.same_top;
    valid = a.valid;
  }

  IsValid-cursor :
      (k : ℕ) (s : Pmm) → k ≤ limit s → IsValid hhdm s → IsValid hhdm (record s { last_index = k })
  unfolding is_used
  IsValid-cursor k s h v = record {
    small = v.small;
    cursor = h;
    mapped = v.mapped;
    zero_used = v.zero_used;
    guarded = v.guarded;
  }

  -- No run of `count` free pages lies in `[lo, hi)`.
  abbrev pub NoRun : ℕ → ℕ → ℕ → Pmm → Type 0
  NoRun count lo hi s =
      (page : ℕ)
      → lo ≤ page
      → page + count ≤ hi
      → (j : ℕ) × (page ≤ j) × (j < page + count) × (is_used s j ≡ true)

  abbrev pub Result : ℕ → Pmm → Type 0
  Result count s =
      ((ptr : ℕ) × (s' : Pmm) × (alloc hhdm count s ≡ done ptr s') × Allocated hhdm count s ptr s')
      ⊎ ((alloc hhdm count s ≡ out_of_memory)
          × NoRun count s.last_index (limit s) s
          × NoRun count 0 s.last_index s)

  abbrev rewound : Pmm → Pmm
  rewound s = record s { last_index = 0 }

  first_scan : ℕ → Pmm → ℕ × Pmm
  first_scan count s = inner_alloc (limit s - s.last_index) count 0 s

  second_scan : ℕ → Pmm → ℕ × Pmm
  second_scan count s = inner_alloc s.last_index count 0 (record s { last_index = 0 })

  alloc-first :
      (count : ℕ) (s : Pmm)
      → count ≢ 0
      → (first_scan count s).0 ≢ 0
      → alloc hhdm count s ≡ finish hhdm count (first_scan count s)
  unfolding alloc first_scan
  alloc-first count s c n = rw (ne→== count 0 c, ne→== (first_scan count s).0 0 n)

  -- A scan that found nothing hands its state on with another cursor.
  alloc-second :
      (count k : ℕ) (s : Pmm)
      → count ≢ 0
      → first_scan count s ≡ (0, record s { last_index = k })
      → alloc hhdm count s ≡ (
          if (second_scan count s).0 == 0
          then out_of_memory
          else finish hhdm count (second_scan count s))
  unfolding alloc first_scan second_scan
  alloc-second count k s c e = rw (ne→== count 0 c, e)

  scan_first :
      (count : ℕ) (s : Pmm)
      → 1 ≤ count
      → IsValid hhdm s
      → Scanned count s.last_index (limit s) s (first_scan count s)
  unfolding first_scan
  scan_first count s c v =
      let end : s.last_index + (limit s - s.last_index) ≡ limit s = omega (arith, v.cursor) in
      subst (λ t. Scanned count s.last_index t s (first_scan count s)) end
        (inner_alloc-Scanned (limit s - s.last_index) count 0 s.last_index s c (omega arith)
          (λ j l h. absurd (omega arith)))

  scan_second :
      (count : ℕ) (s : Pmm)
      → 1 ≤ count
      → Scanned count 0 s.last_index (record s { last_index = 0 }) (second_scan count s)
  unfolding second_scan
  scan_second count s c =
      let end : 0 + s.last_index ≡ s.last_index = omega arith in
      subst (λ t. Scanned count 0 t (record s { last_index = 0 }) (second_scan count s)) end
        (inner_alloc-Scanned s.last_index count 0 0 (record s { last_index = 0 }) c (omega arith)
          (λ j l h. absurd (omega arith)))

  Found-nonzero :
      (count lo hi : ℕ) (s : Pmm) (r : ℕ × Pmm)
      → 1 ≤ count
      → IsValid hhdm s
      → Found count lo hi s r
      → hi ≤ limit s
      → r.0 ≢ 0
  Found-nonzero count lo hi s r c v f h e =
      omega (arith, run_positive hhdm count lo hi s r c v f h, ap (λ (t : ℕ × Pmm). t.0) f.taken)

  -- In a valid state, so with at most 2048 pages, `alloc` of `count >= 1` pages either returns the address of a run of free
  -- pages past page 0, marks exactly these as used, fills them with zeros, changes no other byte
  -- outside the bitmap, adds their size to the used memory and leaves a valid state; or it panics,
  -- and then no run of `count` free pages lies between the cursor and the top of the memory, nor
  -- one below the cursor.
  pub alloc_lem : (count : ℕ) (s : Pmm) → 1 ≤ count → IsValid hhdm s → Result count s
  unfolding is_used
  alloc_lem count s c v = try_first (scan_first count s c v)
    where
      low-IsValid : IsValid hhdm (rewound s)
      low-IsValid = IsValid-cursor 0 s (omega arith) v

      nonzero : count ≢ 0
      nonzero = omega arith

      try_second :
          (k : ℕ)
          → first_scan count s ≡ (0, record s { last_index = k })
          → NoRun count s.last_index (limit s) s
          → Scanned count 0 s.last_index (rewound s) (second_scan count s)
          → Result count s
      try_second k e none_above (inl f) = inl (
        f.page * page_size,
        final hhdm count 0 s.last_index (rewound s) (second_scan count s) c low-IsValid f v.cursor,
        alloc-second count k s nonzero e
            ∙ rw
                (ne→== (second_scan count s).0 0 (
                  Found-nonzero count 0 s.last_index (rewound s) (second_scan count s) c low-IsValid
                    f v.cursor))
                (finish-eq hhdm count 0 s.last_index (rewound s) (second_scan count s) c low-IsValid
                  f v.cursor),
        Allocated-cursor count 0 s (
            finish-Allocated hhdm count 0 s.last_index (rewound s) (second_scan count s) c
              low-IsValid f v.cursor),
      )
      try_second k e none_above (inr g) = inr (
        alloc-second count k s nonzero e ∙ rw (ap (λ (t : ℕ × Pmm). t.0) g.unchanged),
        none_above,
        g.blocked,
      )

      try_first : Scanned count s.last_index (limit s) s (first_scan count s) → Result count s
      try_first (inl f) = inl (
        f.page * page_size,
        final hhdm count s.last_index (limit s) s (first_scan count s) c v f (le_refl _),
        alloc-first count s nonzero
              (Found-nonzero count s.last_index (limit s) s (first_scan count s) c v f (le_refl _))
            ∙ finish-eq hhdm count s.last_index (limit s) s (first_scan count s) c v f (le_refl _),
        finish-Allocated hhdm count s.last_index (limit s) s (first_scan count s) c v f (le_refl _),
      )
      try_first (inr g) = try_second (limit s) g.unchanged g.blocked (scan_second count s c)

  -- A call that returned did what `Allocated` says.
  pub alloc-Allocated :
      (count : ℕ) (s : Pmm) {ptr : ℕ} {s' : Pmm}
      → 1 ≤ count
      → IsValid hhdm s
      → alloc hhdm count s ≡ done ptr s'
      → Allocated hhdm count s ptr s'
  alloc-Allocated count s {ptr} {s'} c v e = by_result (alloc_lem count s c v)
    where
      by_result : Result count s → Allocated hhdm count s ptr s'
      by_result (inl (p, t, e', a)) =
          let same : done p t ≡ done ptr s' = sym e' ∙ e in
          let ep : p ≡ ptr = cc in
          let et : t ≡ s' = cc in
          subst (λ q. Allocated hhdm count s q s') ep (subst (λ u. Allocated hhdm count s p u) et a)
      by_result (inr (e', _, _)) = absurd (cc (sym e' ∙ e))
