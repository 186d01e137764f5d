-- ===== src/Memory/Physical/Init/Valid.antt =====
-- The state that `init` of kernel/memory/physical.cpp leaves, for 8 to 2048 pages of memory.
use ice.Prelude.{
  ℕ, zero, suc, ◌+◌, ◌-◌, ◌*◌, ◌/◌, ◌^◌, ◌≤◌, ◌<◌, ◌≡◌, if◌then◌else◌, List, [], ◌∷◌, ◌==◌, ◌&&◌,
  not, max, sym, arith, refl, ap, ◌∙◌, Bool-cases, true, false, inl, inr, Mem,
}
use ice.Utils.Math.{tohh, add64, align_up}
use ice.Utils.Math.Align.{align_up_bounds}
use ice.Utils.Bitmap.{get}
use ice.Utils.Bitmap.Laws.{get_ones}
use ice.Libc.String.Block.{memset-IsWritten}
use ice.Memory.Physical.{Pmm, is_used, mark, page_size}
use ice.Memory.Physical.Alloc.{page_addr, IsValid}
use ice.Memory.Physical.Init.{
  Entry, is_usable, boot, survey, bitmap_size, place_bitmap, release_pages, release_entry, release,
  init,
}
use ice.Memory.Physical.Init.Survey.{usable_bytes, usable_top, highest_top, Fits, survey_lem}
use ice.Memory.Physical.Init.Release.{AllPages, in_usable, release_lem}
use ice.Memory.Physical.Init.Place.{Separate, has_room, bitmap_at, Placed, place_bitmap-Placed}

-- What the boot loader promises of its map, and the bounds on the memory. Page 0 is not usable.
pub record IsMap (hhdm : ℕ) (es : List Entry) : Type 0 where
  pub fits : Fits es
  pub aligned : AllPages es
  pub separate : Separate es
  pub room : has_room page_size es ≡ true
  pub summed : usable_bytes es < 2 ^ 64
  pub small : usable_top es 0 / page_size ≤ 2048
  pub large : 8 ≤ usable_top es 0 / page_size
  pub mapped : (usable_top es 0 ≤ hhdm) × (usable_top es 0 + hhdm < 2 ^ 64)
  pub zero_reserved : in_usable es 0 ≡ false

-- Freeing changes the memory alone.
release_pages-eq :
    (left base t : ℕ) (s : Pmm)
    → release_pages left base t s ≡ record s { mem = (release_pages left base t s).mem }
unfolding release_pages mark
release_pages-eq zero base t s = refl
release_pages-eq (suc left) base t s =
    release_pages-eq left base (t + page_size) (mark s (add64 base t / page_size) false)

release_entry-eq :
    (e : Entry) (s : Pmm) → release_entry e s ≡ record s { mem = (release_entry e s).mem }
unfolding release_entry
release_entry-eq e s = elim (Bool-cases (is_usable e)) [
  | inl y ↦ rw y (release_pages-eq ((e.length + page_size - 1) / page_size) e.base 0 s)
  | inr n ↦ rw n refl
]

release-eq : (es : List Entry) (s : Pmm) → release es s ≡ record s { mem = (release es s).mem }
unfolding release
release-eq [] s = refl
release-eq (e ∷ es) s =
    release-eq es (release_entry e s)
    ∙ ap (λ (t : Pmm). record t { mem = (release es (release_entry e s)).mem })
        (release_entry-eq e s)

-- A usable page ends at or before the highest end.
usable_top-le : (es : List Entry) (n : ℕ) → n ≤ usable_top es n
usable_top-le [] n = omega arith
usable_top-le (e ∷ es) n =
    ground (arith, usable_top-le es (if is_usable e then max n (e.base + e.length) else n))

in_usable-below :
    (es : List Entry) (n j : ℕ)
    → AllPages es
    → in_usable es j ≡ true
    → j * page_size + page_size ≤ usable_top es n
in_usable-below [] n j p h = absurd (ground arith)
in_usable-below (e ∷ es) n j p h =
    let n' = if is_usable e then max n (e.base + e.length) else n in
    elim (Bool-cases (in_usable es j)) [
      | inl y ↦ in_usable-below es n' j p.1 y
      | inr x ↦ ground (arith, x, usable_top-le es n')
    ]

module _ (hhdm : ℕ) (es : List Entry) (m : Mem) (b : IsMap hhdm es) where
  surveyed : Pmm
  surveyed = record (boot m) {
    usable_memory = usable_bytes es;
    total_memory = usable_bytes es;
    mem_usable_top = usable_top es 0;
    mem_top = highest_top es 0;
  }

  survey-boot : survey es (boot m) ≡ surveyed
  unfolding surveyed boot
  survey-boot =
      let z : 0 + usable_bytes es ≡ usable_bytes es = omega arith in
      survey_lem es (boot m) b.fits (omega (arith, b.summed)) (omega (arith, b.summed)) ∙ rw z refl

  -- Up to 2048 pages need one page of bitmap.
  one_page : bitmap_size surveyed ≡ page_size
  unfolding bitmap_size surveyed boot
  one_page = omega (
    arith,
    align_up_bounds 12 (usable_top es 0 / page_size / 8) (omega arith) (omega (arith, b.small)),
    b.large,
    b.small,
  )

  placed : List Entry × Pmm
  placed = place_bitmap hhdm page_size es surveyed

  p : Placed hhdm es surveyed placed
  unfolding placed
  p = place_bitmap-Placed hhdm es surveyed b.aligned b.separate b.room

  all_used : (j : ℕ) → is_used placed.1 j ≡ true
  all_used j =
      ap (λ t. is_used t j) p.state
      ∙ unfold is_used in
        get_ones _ _ j (λ a lo hi.
          (memset-IsWritten surveyed.mem (bitmap_at hhdm p.page).buffer 0xff page_size).inside a lo
            (omega arith))

  final_used :
      (j : ℕ)
      → j < 2048
      → is_used (release placed.0 placed.1) j ≡ not (in_usable es j && not (p.page == j))
  final_used j l =
      ground (arith, release_lem placed.0 placed.1 j p.aligned l, all_used j, p.others j)

  final : Pmm
  final = record (boot m) {
    mem = (release placed.0 placed.1).mem;
    bitmap = bitmap_at hhdm p.page;
    mem_usable_top = usable_top es 0;
    mem_top = align_up (highest_top es 0) 0x40000000;
    usable_memory = usable_bytes es;
    total_memory = usable_bytes es;
    used_memory = page_size;
  }

  init-final : (init hhdm es (boot m)).1 ≡ final
  unfolding init surveyed boot final placed
  init-final =
      rw (survey-boot, one_page)
        (ap (λ (t : Pmm). record t { mem_top = align_up t.mem_top 0x40000000 })
          (release-eq placed.0 placed.1
            ∙ ap (λ (t : Pmm). record t { mem = (release placed.0 placed.1).mem }) p.state))

  final_bits : (j : ℕ) → j < 2048 → is_used final j ≡ not (in_usable es j && not (p.page == j))
  unfolding final is_used
  final_bits j l =
      ap (λ x. get (release placed.0 placed.1).mem x j)
        (sym (
          ap (λ (t : Pmm). t.bitmap)
            (release-eq placed.0 placed.1
              ∙ ap (λ (t : Pmm). record t { mem = (release placed.0 placed.1).mem }) p.state)))
      ∙ final_used j l

  buffer : final.bitmap.buffer ≡ page_addr hhdm p.page
  unfolding final tohh
  buffer = ground (arith, b.mapped, in_usable-below es 0 p.page b.aligned p.was_usable)

  final-IsValid : IsValid hhdm final
  unfolding final boot
  final-IsValid = record {
    small = b.small;
    cursor = omega arith;
    mapped = b.mapped;
    zero_used = final_bits 0 (omega arith) ∙ ground (arith, b.zero_reserved);
    guarded = λ j l free. ground (arith, buffer, final_bits j (omega (arith, b.small)));
  }

-- What `init` leaves: a valid state, and the page that it took for the bitmap.
pub record Started (hhdm : ℕ) (es : List Entry) (s : Pmm) : Type 0 where
  pub valid : IsValid hhdm s
  pub page : ℕ
  pub was_usable : in_usable es page ≡ true
  pub bitmap_there : s.bitmap.buffer ≡ page_addr hhdm page
  pub exact : (j : ℕ) → j < 2048 → is_used s j ≡ not (in_usable es j && not (page == j))
  pub one_used : s.used_memory ≡ page_size
  pub counted : (s.usable_memory ≡ usable_bytes es) × (s.total_memory ≡ usable_bytes es)
  pub top : s.mem_usable_top ≡ usable_top es 0

-- For a memory map whose usable entries are whole pages, do not overlap, spare page 0, end between
-- 8 and 2048 pages and lie in the direct map, one of them being a page or longer, and whose entries
-- lie in the address space, `init` leaves a valid state. In it the bitmap lies in a page that was
-- usable, exactly the other usable pages are free, this one page counts as used, and the usable
-- bytes are counted as usable and as total memory.
pub init_lem :
    (hhdm : ℕ) (es : List Entry) (m : Mem)
    → IsMap hhdm es
    → Started hhdm es (init hhdm es (boot m)).1
init_lem hhdm es m b = rw (init-final hhdm es m b) record {
  valid = final-IsValid hhdm es m b;
  page = (p hhdm es m b).page;
  was_usable = (p hhdm es m b).was_usable;
  bitmap_there = buffer hhdm es m b;
  exact = final_bits hhdm es m b;
  one_used = unfold final in refl;
  counted = unfold final in (refl, refl);
  top = unfold final in refl;
}
