-- ===== src/Tests/Growth.antt =====
-- A page table that is made, on the four pages of kernel/memory/physical.cpp.
use ice.Prelude.{
  ℕ, true, false, ◌+◌, ◌*◌, ◌^◌, ◌<◌, ◌≡◌, ◌∙◌, inr, refl, arith, if◌then◌else◌, load64, load_bytes,
  store, ◌==◌, ltb,
}
use ice.Utils.Math.{add64, tohh}
use ice.Utils.Bitmap.{get, set}
use ice.Libc.String.{memset}
use ice.Memory.Physical
use ice.Memory.Physical.{Pmm, done, is_used}
use ice.Memory.Physical.Use.{KeepsBitmap, IsValid-KeepsBitmap, is_used-KeepsBitmap}
use ice.Memory.Slab.{ok, sizes}
use ice.Memory.Slab.Classes.{HasSizes}
use ice.Memory.Paging.{get_next_lvl}
use ice.Memory.Paging.Entry.{has_flags}
use ice.Memory.Paging.Grow.{IsSlot, Grown, get_next_lvl-Grown}
use ice.Memory.Paging.Grow.Table.{Request}
use ice.Tests.Pages.{four_pages, four_pages-IsValid, is_used_low, offset}
use ice.Tests.Heap.{slab_sizes}

-- The slabs at 16, the bitmap in page 0, and an empty table in page 1.
abbrev grow_bytes : ℕ → ℕ
grow_bytes a =
    if ltb a 0x1000
    then slab_sizes a
    else (if a == offset then 3 else (if ltb a (offset + 0x1000) then 255 else 0))

abbrev grow_state : Pmm
grow_state = record four_pages { mem = grow_bytes }

keeps : KeepsBitmap four_pages grow_bytes
keeps a p q = ground (arith, p, q)

abbrev grown_pages : Pmm
grown_pages = record grow_state {
  mem =
      memset (set (set grow_bytes four_pages.bitmap 2 true) four_pages.bitmap 3 true)
        (tohh offset 0x2000) 0 (2 * 0x1000);
  last_index = 4;
  used_memory = add64 0x2000 (2 * 0x1000);
}

alloc_runs : Physical.alloc offset 2 grow_state ≡ done 0x2000 grown_pages
unfolding Physical.alloc Physical.inner_alloc Physical.finish Physical.mark_range Physical.mark
    Physical.is_used get set store
alloc_runs = refl

has_sizes : HasSizes grow_bytes 16 sizes
unfolding load_bytes
has_sizes = (refl, (refl, (refl, (refl, (refl, (refl, (refl, (refl, (refl, (refl, tt))))))))))

request : Request offset 16 grow_state 0x2000 grown_pages
request = record {
  aligned = refl;
  low = omega arith;
  valid = IsValid-KeepsBitmap offset four_pages grow_bytes keeps four_pages-IsValid;
  has_sizes = has_sizes;
  ne_null = λ e. omega (arith, e);
  found = alloc_runs;
}

empty_entry :
    (load64 grow_bytes (offset + 0x1000 + 0 * 8) < 2 ^ 64)
    × (has_flags (load64 grow_bytes (offset + 0x1000 + 0 * 8)) 1 ≡ false)
unfolding load_bytes has_flags
empty_entry = (omega arith, refl)

slot : IsSlot offset grow_state (offset + 0x1000 + 0 * 8) 1
slot = record {
  in_use = is_used-KeepsBitmap four_pages grow_bytes 1 keeps ∙ is_used_low.1;
  inside = (omega arith, omega arith);
  off_bitmap = inr (omega arith);
  word = empty_entry.0;
}

get_next_lvl-Grown_example :
    (table : ℕ) × (t : Pmm) × (get_next_lvl offset 16 (offset + 0x1000) 0 true grow_state
      ≡ ok table t)
    × Grown offset grow_state (offset + 0x1000 + 0 * 8) table t
get_next_lvl-Grown_example =
    get_next_lvl-Grown offset 16 (offset + 0x1000) 0 1 grow_state request slot
      (λ e. omega (arith, e)) empty_entry.1
