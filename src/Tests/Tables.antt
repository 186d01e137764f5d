-- ===== src/Tests/Tables.antt =====
-- The page tables of kernel/arch/x86_64/memory/virtual.cpp: three levels, each leading to the next.
use ice.Prelude.{
  ℕ, true, false, not, ◌+◌, ◌*◌, ◌^◌, ◌<◌, ◌≡◌, inl, refl, arith, if◌then◌else◌, load64, store64,
  load_bytes, ◌==◌,
}
use ice.Utils.Math.{ishh, tohh}
use ice.Memory.Physical.{Pmm}
use ice.Memory.Slab.{ok}
use ice.Memory.Slab
use ice.Memory.Paging.Lifetime.{fill_levels, copy_levels, destroy_level, destroy_entries}
use ice.Memory.Paging.{
  get_next_lvl, Pagemap, kib4, mib2, gib1, table_index, virtual_to_physical, map, required_size,
  for_pages,
}
use ice.Memory.Paging.Entry.{
  set_address, get_address, get_flags, has_flags, flags_to_arch, is_lpage, is_canonical, Caching,
}
use ice.Memory.Paging.Entry
use ice.Memory.Paging.Walk.{HasSizes, Leads, Tables}
use ice.Memory.Paging.Translate.{Apart, WordsApart, entry_at, map-virtual_to_physical}
use ice.Tests.Pages.{four_pages, offset}

-- Tables in the pages 1 to 4; the entries of index 0 are present and lead to the next page.
abbrev pub entry_bytes : ℕ → ℕ
entry_bytes a =
    if a == offset + 0x1000
    then 3
    else (if a == offset + 0x1001
        then 0x20
        else (if a == offset + 0x2000
            then 3
            else (if a == offset + 0x2001
                then 0x30
                else (if a == offset + 0x3000
                    then 3
                    else (if a == offset + 0x3001 then 0x40 else 0)))))

abbrev pub tables_state : Pmm
tables_state = record four_pages { mem = entry_bytes }

abbrev pub pagemap : Pagemap
pagemap = record {
  top_level = offset + 0x1000;
  llpage_size = gib1;
  lpage_size = mib2;
  page_size = kib4;
}

pub pagemap-HasSizes : HasSizes pagemap
pagemap-HasSizes = record { small = refl; large = refl; largest = refl }

pub lead_pml3 :
    Leads offset entry_bytes (offset + 0x1000 + table_index 0x5123 39 * 8) (offset + 0x2000)
unfolding table_index tohh ishh has_flags get_address load_bytes
lead_pml3 = record { is_present = refl; target = refl; ne_null = λ e. omega (arith, e) }

pub lead_pml2 :
    Leads offset entry_bytes (offset + 0x2000 + table_index 0x5123 30 * 8) (offset + 0x3000)
unfolding table_index tohh ishh has_flags get_address load_bytes
lead_pml2 = record { is_present = refl; target = refl; ne_null = λ e. omega (arith, e) }

pub lead_pml1 :
    Leads offset entry_bytes (offset + 0x3000 + table_index 0x5123 21 * 8) (offset + 0x4000)
unfolding table_index tohh ishh has_flags get_address load_bytes
lead_pml1 = record { is_present = refl; target = refl; ne_null = λ e. omega (arith, e) }

abbrev pub pagemap-Tables : Tables offset entry_bytes pagemap 0x5123
pagemap-Tables = record {
  pml3 = offset + 0x2000;
  pml2 = offset + 0x3000;
  pml1 = offset + 0x4000;
  top = λ e. omega (arith, e);
  to_pml3 = lead_pml3;
  to_pml2 = lead_pml2;
  to_pml1 = lead_pml1;
}

pub apart : Apart offset entry_bytes pagemap 0x5123 pagemap-Tables
unfolding table_index
apart = record {
  from_top = inl (omega arith);
  from_pml3 = inl (omega arith);
  from_pml2 = inl (omega arith);
}

word_entry : load64 entry_bytes (offset + 0x4000 + table_index 0x5123 12 * 8) < 2 ^ 64
unfolding table_index load_bytes
word_entry = omega arith

pub no_flag : (has_flags 1 Entry.Flag.llpage ≡ false) × (has_flags 1 Entry.Flag.lpage ≡ false)
unfolding has_flags
no_flag = (refl, refl)

-- The page at 0x7000 for the addresses from 0x5000 on, to be read.
map-virtual_to_physical_example :
    (s' : Pmm) × (map offset 0 true pagemap 0x5123 0x7000 1 Caching.write_back tables_state
      ≡ ok true s')
    × (virtual_to_physical offset 0 pagemap 0x5123 1 s' ≡ ok 0x7123 s')
    × ((a : ℕ)
        → WordsApart a (entry_at offset 0x5123 pagemap entry_bytes pagemap-Tables)
        → load64 s'.mem a ≡ load64 entry_bytes a)
map-virtual_to_physical_example =
    map-virtual_to_physical offset 0 0x5123 0x7000 1 true Caching.write_back pagemap tables_state
      pagemap-HasSizes no_flag.0 no_flag.1 pagemap-Tables apart word_entry (omega arith) refl

required_size_runs : required_size pagemap 0x300000 ≡ (mib2, Entry.Flag.lpage)
unfolding required_size
required_size_runs = refl

for_pages_runs : for_pages 3 0 1 (λ i s. ok (not (i == 1)) s) four_pages ≡ ok false four_pages
unfolding for_pages
for_pages_runs = refl

-- An entry of the kernel's page map is copied.
copy_levels_runs :
    copy_levels offset 0 1 (offset + 0x2000) (offset + 0x1000) 0 tables_state
    ≡ ok tt (record tables_state { mem = store64 entry_bytes (offset + 0x2000) 0x2003 })
unfolding copy_levels load_bytes
copy_levels_runs = refl

-- A table that is there is kept.
fill_levels_runs : fill_levels offset 0 1 (offset + 0x1000) 0 tables_state ≡ ok tt tables_state
unfolding fill_levels get_next_lvl has_flags load_bytes
fill_levels_runs = refl

-- At the last level nothing is freed, and an absent entry is passed over.
destroy_runs :
    (destroy_level offset 0 0 (offset + 0x1000) 0 512 tables_state ≡ ok tt tables_state)
    × (destroy_entries offset 0 (λ next. Slab.pure tt) 1 (offset + 0x4000) 0 tables_state
        ≡ ok tt tables_state)
unfolding destroy_level destroy_entries get_next_lvl has_flags load_bytes
destroy_runs = (refl, refl)
