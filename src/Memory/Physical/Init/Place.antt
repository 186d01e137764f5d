-- ===== src/Memory/Physical/Init/Place.antt =====
-- Where the second loop of `init` in kernel/memory/physical.cpp puts the bitmap, if it takes one page.
use ice.Prelude.{
  ℕ, ◌+◌, ◌-◌, ◌*◌, ◌≤◌, ◌≡◌, List, [], ◌∷◌, ltb, leb, ◌==◌, Bool, ◌&&◌, ◌||◌, not, arith, ap,
  Bool-cases, true, false, inl, inr,
}
use ice.Utils.Math.{tohh, add64, sub64}
use ice.Utils.Bitmap.{Bitmap, reassign}
use ice.Libc.String.{memset}
use ice.Memory.Physical.{Pmm, page_size}
use ice.Memory.Physical.Init.{Entry, is_usable, place_bitmap}
use ice.Memory.Physical.Init.Release.{first, pages, IsPages, AllPages, in_usable}

abbrev pub within : Entry → ℕ → Bool
within e j = leb (first e) j && ltb j (first e + pages e)

-- The boot loader's usable entries do not overlap.
abbrev pub Separate : List Entry → Type 0
Separate [] = Unit
Separate (e ∷ es) =
    (is_usable e ≡ true → (j : ℕ) → within e j ≡ true → in_usable es j ≡ false) × Separate es

-- A usable entry is long enough.
abbrev pub has_room : ℕ → List Entry → Bool
has_room size [] = false
has_room size (e ∷ es) = (is_usable e && leb size e.length) || has_room size es

module _ (hhdm : ℕ) where
  abbrev pub bitmap_at : ℕ → Bitmap
  bitmap_at page = record { buffer = tohh hhdm (page * page_size); size = page_size }

  -- The page at `page` was usable; it is no more, and holds the bitmap, full of ones.
  pub record Placed (es : List Entry) (s : Pmm) (r : List Entry × Pmm) : Type 0 where
    pub page : ℕ
    pub was_usable : in_usable es page ≡ true
    pub others : (j : ℕ) → in_usable r.0 j ≡ (in_usable es j && not (page == j))
    pub aligned : AllPages r.0
    pub state : r.1 ≡ record s {
      bitmap = bitmap_at page;
      mem = memset s.mem (bitmap_at page).buffer 0xff page_size;
      used_memory = add64 s.used_memory page_size;
    }

  shortened : Entry → Entry
  shortened e = record e { length = sub64 e.length page_size; base = add64 e.base page_size }

  module _ (e : Entry) (p : IsPages e) (l : page_size ≤ e.length) where
    first-shortened : first (shortened e) ≡ first e + 1
    unfolding shortened
    first-shortened = omega (arith, p.base_aligned, p.length_aligned, p.low)

    pages-shortened : pages (shortened e) ≡ pages e - 1
    unfolding shortened
    pages-shortened = omega (arith, p.base_aligned, p.length_aligned, p.low)

    shortened-IsPages : IsPages (shortened e)
    shortened-IsPages = record {
      base_aligned = unfold shortened in omega (arith, p.base_aligned, p.length_aligned, p.low);
      length_aligned = unfold shortened in omega (arith, p.base_aligned, p.length_aligned, p.low);
      low = omega (arith, first-shortened, pages-shortened, p.low);
    }

  -- The entry is passed over.
  skip-Placed :
      (e : Entry) (es : List Entry) (s : Pmm)
      → AllPages (e ∷ es)
      → Separate (e ∷ es)
      → Placed es s (place_bitmap hhdm page_size es s)
      → Placed
          (e ∷ es)
          s
          (e ∷ (place_bitmap hhdm page_size es s).0, (place_bitmap hhdm page_size es s).1)
  skip-Placed e es s p sep r = record {
    page = r.page;
    was_usable = ground (arith, r.was_usable);
    others = λ j. elim (Bool-cases (is_usable e)) [
      | inl y ↦ ground (arith, r.others j, r.was_usable, sep.0 y j)
      | inr n ↦ ground (arith, r.others j)
    ];
    aligned = (p.0, r.aligned);
    state = r.state;
  }

  -- The entry gives its first page.
  take-Placed :
      (e : Entry) (es : List Entry) (s : Pmm)
      → AllPages (e ∷ es)
      → Separate (e ∷ es)
      → is_usable e ≡ true
      → leb page_size e.length ≡ true
      → Placed (e ∷ es) s (
        shortened e ∷ es,
        record s {
          bitmap = record { buffer = tohh hhdm e.base; size = page_size };
          mem = memset s.mem (tohh hhdm e.base) 0xff page_size;
          used_memory = add64 s.used_memory page_size;
        },
      )
  take-Placed e es s p sep y l = record {
    page = first e;
    was_usable = ground (arith, y, has_page);
    others = λ j. ground (
      arith,
      y,
      first-shortened e (p.0 y) long,
      pages-shortened e (p.0 y) long,
      has_page,
      sep.0 y (first e),
      unchanged_kind,
    );
    aligned = ((λ h. shortened-IsPages e (p.0 y) long), p.1);
    state =
        ap
          (λ b. record s {
            bitmap = record { buffer = tohh hhdm b; size = page_size };
            mem = memset s.mem (tohh hhdm b) 0xff page_size;
            used_memory = add64 s.used_memory page_size;
          })
          base;
  }
    where
      long : page_size ≤ e.length
      long = ground arith

      base : e.base ≡ first e * page_size
      base = omega (arith, (p.0 y).base_aligned)

      has_page : 1 ≤ pages e
      has_page = omega (arith, long)

      unchanged_kind : is_usable (shortened e) ≡ true
      unchanged_kind = unfold shortened in y

  -- With a usable entry of a page or more, the bitmap gets the first page of one of them.
  pub place_bitmap-Placed :
      (es : List Entry) (s : Pmm)
      → AllPages es
      → Separate es
      → has_room page_size es ≡ true
      → Placed es s (place_bitmap hhdm page_size es s)
  unfolding place_bitmap reassign shortened
  place_bitmap-Placed [] s p sep room = absurd (ground arith)
  place_bitmap-Placed (e ∷ es) s p sep room = elim (Bool-cases (is_usable e)) [
    | inr n ↦ rw n (skip-Placed e es s p sep (place_bitmap-Placed es s p.1 sep.1 (ground arith)))
    | inl y ↦ elim (Bool-cases (leb page_size e.length)) [
      | inr n ↦
          rw (y, n) (skip-Placed e es s p sep (place_bitmap-Placed es s p.1 sep.1 (ground arith)))
      | inl l ↦ rw (y, l) (take-Placed e es s p sep y l)
    ]
  ]
