-- ===== src/Memory/Physical/Init.antt =====
-- `init` of kernel/memory/physical.cpp: the boot loader's memory map becomes the allocator's state.
-- The map comes as a list of entries, and goes out with the entry that lost the bitmap's pages.
-- The start of the heap at the end of `init` stands in Kernel, with the order of the parts.
pub mod Survey
pub mod Release
pub mod Place
pub mod Valid
use ice.Prelude.{
  ℕ, zero, suc, ◌+◌, ◌-◌, ◌*◌, ◌/◌, ◌%◌, ◌==◌, leb, if◌then◌else◌, Bool, true, false, List, [], ◌∷◌,
  Mem, max,
}
use ice.Utils.Math.{add64, sub64, align_up, tohh}
use ice.Utils.Bitmap.{empty, reassign}
use ice.Libc.String.{memset}
use ice.Memory.Physical.{Pmm, mark, page_size}

-- limine_memmap_entry; `kind` is the field `type`.
pub record Entry : Type 0 where
  pub base : ℕ
  pub length : ℕ
  pub kind : ℕ

-- LIMINE_MEMMAP_USABLE is 0.
abbrev pub is_usable : Entry → Bool
is_usable e = e.kind == 0

-- The static variables before `init`.
unfoldable pub boot : Mem → Pmm
unfolding empty
boot m = record {
  mem = m;
  bitmap = empty;
  last_index = 0;
  mem_usable_top = 0;
  mem_top = 0;
  usable_memory = 0;
  total_memory = 0;
  used_memory = 0;
}

-- The first loop's body.
pub survey_entry : Entry → Pmm → Pmm
survey_entry e s =
    let top = add64 e.base e.length in
    let s' = record s { mem_top = max s.mem_top top } in
    if is_usable e
    then record s' {
      usable_memory = add64 s.usable_memory e.length;
      total_memory = add64 s.total_memory e.length;
      mem_usable_top = max s.mem_usable_top top;
    }
    else s'

pub survey : List Entry → Pmm → Pmm
survey [] s = s
survey (e ∷ es) s = survey es (survey_entry e s)

unfoldable pub bitmap_size : Pmm → ℕ
bitmap_size s = align_up (s.mem_usable_top / page_size / 8) page_size

-- `for (t = 0; t < length; t += page_size)`, with the rounds left first.
pub release_pages : ℕ → ℕ → ℕ → Pmm → Pmm
release_pages zero base t s = s
release_pages (suc left) base t s =
    release_pages left base (t + page_size) (mark s (add64 base t / page_size) false)

pub release_entry : Entry → Pmm → Pmm
unfolding release_pages
release_entry e s =
    if is_usable e then release_pages ((e.length + page_size - 1) / page_size) e.base 0 s else s

pub release : List Entry → Pmm → Pmm
release [] s = s
release (e ∷ es) s = release es (release_entry e s)

module _ (hhdm_offset : ℕ) where
  -- The second loop: the first usable entry that is long enough gives the bitmap its pages.
  unfoldable pub place_bitmap : ℕ → List Entry → Pmm → List Entry × Pmm
  place_bitmap size [] s = ([], s)
  place_bitmap size (e ∷ es) s =
      let (es', s') = place_bitmap size es s in
      let b = reassign s.bitmap (tohh hhdm_offset e.base) size in
      if is_usable e
      then (if leb size e.length
          then (
            record e { length = sub64 e.length size; base = add64 e.base size } ∷ es,
            record s {
              bitmap = b;
              mem = memset s.mem b.buffer 0xff b.size;
              used_memory = add64 s.used_memory size;
            },
          )
          else (e ∷ es', s'))
      else (e ∷ es', s')

  unfoldable pub init : List Entry → Pmm → List Entry × Pmm
  init es s =
      let s1 = survey es s in
      let (es', s2) = place_bitmap (bitmap_size s1) es s1 in
      let s3 = release es' s2 in (es', record s3 { mem_top = align_up s3.mem_top 0x40000000 })
