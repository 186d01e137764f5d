-- ===== src/Tests/Fresh.antt =====
-- A page is mapped whose lowest table has to be made, on the four pages of kernel/memory/physical.cpp.
-- The table in page 1 serves all levels above: two of its entries lead to itself.
use ice.Prelude.{
  ℕ, true, ◌+◌, ◌*◌, ◌%◌, ◌≡◌, ◌∙◌, inr, refl, arith, if◌then◌else◌, load64, load_bytes, store,
  ◌==◌, ltb,
}
use ice.Utils.Math.{add64, tohh, ishh}
use ice.Utils.Bitmap.{get, set}
use ice.Libc.String.{memset}
use ice.Memory.Physical
use ice.Memory.Physical.{Pmm, done, is_used}
use ice.Memory.Physical.Use.{KeepsBitmap, IsValid-KeepsBitmap, is_used-KeepsBitmap}
use ice.Memory.Slab.{ok, sizes}
use ice.Memory.Slab.Classes.{HasSizes}
use ice.Memory.Paging.{map, virtual_to_physical, table_index}
use ice.Memory.Paging.Entry.{has_flags, get_address, Caching}
use ice.Memory.Paging.Walk.{Leads}
use ice.Memory.Paging.Translate.{WordsApart}
use ice.Memory.Paging.Large.{LargeTables}
use ice.Memory.Paging.Missing.{IsAbsent}
use ice.Memory.Paging.Grow.{IsSlot, Grown}
use ice.Memory.Paging.Grow.Table.{Request}
use ice.Memory.Paging.Fresh.{map-Grown}
use ice.Tests.Pages.{four_pages, four_pages-IsValid, is_used_low, offset}
use ice.Tests.Heap.{slab_sizes}
use ice.Tests.Tables.{pagemap, pagemap-HasSizes, no_flag}

-- Entry 1 at level 4, entry 2 at level 3, entry 0 at level 2 and entry 5 at level 1.
abbrev address : ℕ
address = 0x8080005123

abbrev fresh_bytes : ℕ → ℕ
fresh_bytes a =
    if ltb a 0x1000
    then slab_sizes a
    else (if a == offset
        then 3
        else (if ltb a (offset + 0x1000)
            then 255
            else (if a == offset + 0x1008
                then 1
                else (if a == offset + 0x1009
                    then 16
                    else (if a == offset + 0x1010
                        then 1
                        else (if a == offset + 0x1011 then 16 else 0))))))

abbrev fresh_state : Pmm
fresh_state = record four_pages { mem = fresh_bytes }

keeps : KeepsBitmap four_pages fresh_bytes
keeps a p q = ground (arith, p, q)

abbrev two_found : Pmm
two_found = record fresh_state {
  mem =
      memset (set (set fresh_bytes four_pages.bitmap 2 true) four_pages.bitmap 3 true)
        (tohh offset 0x2000) 0 (2 * 0x1000);
  last_index = 4;
  used_memory = add64 0x2000 (2 * 0x1000);
}

two_pages_run : Physical.alloc offset 2 fresh_state ≡ done 0x2000 two_found
unfolding Physical.alloc Physical.inner_alloc Physical.finish Physical.mark_range Physical.mark
    Physical.is_used get set store
two_pages_run = refl

fresh_sizes : HasSizes fresh_bytes 16 sizes
unfolding load_bytes
fresh_sizes = (refl, (refl, (refl, (refl, (refl, (refl, (refl, (refl, (refl, (refl, tt))))))))))

pages_free : Request offset 16 fresh_state 0x2000 two_found
pages_free = record {
  aligned = refl;
  low = omega arith;
  valid = IsValid-KeepsBitmap offset four_pages fresh_bytes keeps four_pages-IsValid;
  has_sizes = fresh_sizes;
  ne_null = λ e. omega (arith, e);
  found = two_pages_run;
}

abbrev page_1 : ℕ
page_1 = offset + 0x1000

loop_pml3 : Leads offset fresh_bytes (page_1 + table_index address 39 * 8) page_1
unfolding table_index tohh ishh has_flags get_address load_bytes
loop_pml3 = record { is_present = refl; target = refl; ne_null = λ e. omega (arith, e) }

loop_pml2 : Leads offset fresh_bytes (page_1 + table_index address 30 * 8) page_1
unfolding table_index tohh ishh has_flags get_address load_bytes
loop_pml2 = record { is_present = refl; target = refl; ne_null = λ e. omega (arith, e) }

abbrev loops : LargeTables offset fresh_bytes pagemap address
loops = record {
  pml3 = page_1;
  pml2 = page_1;
  top = λ e. omega (arith, e);
  to_pml3 = loop_pml3;
  to_pml2 = loop_pml2;
}

page_1_used : is_used fresh_state 1 ≡ true
page_1_used = is_used-KeepsBitmap four_pages fresh_bytes 1 keeps ∙ is_used_low.1

slot_top : IsSlot offset fresh_state (page_1 + table_index address 39 * 8) 1
unfolding table_index load_bytes
slot_top = record {
  in_use = page_1_used;
  inside = (omega arith, omega arith);
  off_bitmap = inr (omega arith);
  word = omega arith;
}

slot_pml3 : IsSlot offset fresh_state (page_1 + table_index address 30 * 8) 1
unfolding table_index load_bytes
slot_pml3 = record {
  in_use = page_1_used;
  inside = (omega arith, omega arith);
  off_bitmap = inr (omega arith);
  word = omega arith;
}

slot_pml2 : IsSlot offset fresh_state (page_1 + table_index address 21 * 8) 1
unfolding table_index load_bytes
slot_pml2 = record {
  in_use = page_1_used;
  inside = (omega arith, omega arith);
  off_bitmap = inr (omega arith);
  word = omega arith;
}

no_table : IsAbsent fresh_bytes (page_1 + table_index address 21 * 8)
unfolding table_index load_bytes has_flags
no_table = refl

slots_apart :
    WordsApart (page_1 + table_index address 39 * 8) (page_1 + table_index address 21 * 8)
    × WordsApart (page_1 + table_index address 30 * 8) (page_1 + table_index address 21 * 8)
unfolding table_index
slots_apart = (inr (omega arith), inr (omega arith))

map-Grown_example :
    (table : ℕ) × (u : Pmm) × (t' : Pmm) × Grown offset fresh_state
      (page_1 + table_index address 21 * 8)
      table
      u
    × (map offset 16 true pagemap address 0x7000 1 Caching.write_back fresh_state ≡ ok true t')
    × (virtual_to_physical offset 16 pagemap address 1 t' ≡ ok (0x7000 + address % 0x1000) t')
    × ((a : ℕ)
        → WordsApart a (table + table_index address 12 * 8)
        → load64 t'.mem a ≡ load64 u.mem a)
map-Grown_example =
    map-Grown offset 16 address 0x7000 1 true Caching.write_back pagemap fresh_state pages_free
      pagemap-HasSizes loops slot_pml2 slot_top slot_pml3 slots_apart.0 slots_apart.1 no_table
      no_flag.0 no_flag.1 (omega arith) refl
