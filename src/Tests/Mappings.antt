-- ===== src/Tests/Mappings.antt =====
-- Translations in the page tables of kernel/arch/x86_64/memory/virtual.cpp before and after changes.
use ice.Prelude.{
  ℕ, true, false, ◌+◌, ◌*◌, ◌^◌, ◌<◌, ◌≡◌, inl, refl, arith, if◌then◌else◌, load64, load_bytes,
  ◌==◌, bit_or,
}
use ice.Utils.Math.{ishh, tohh}
use ice.Memory.Physical.{Pmm}
use ice.Memory.Slab.{ok}
use ice.Memory.Paging.{table_index, virtual_to_physical, map, invalid_addr}
use ice.Memory.Paging.Entry.{get_address, has_flags, Caching}
use ice.Memory.Paging.Entry
use ice.Memory.Paging.Index.{table_index-eq}
use ice.Memory.Paging.Change.{unmap, set_page_flags, remap}
use ice.Memory.Paging.Walk.{Leads, Tables}
use ice.Memory.Paging.Translate.{WordsApart, entry_at}
use ice.Memory.Paging.Translate.Entry.{page_flags}
use ice.Memory.Paging.Missing.{no_pml3, missing_lem}
use ice.Memory.Paging.Effects.{set_page_flags-virtual_to_physical}
use ice.Memory.Paging.Remap.{TwoPages, remap_lem}
use ice.Memory.Paging.Large.{LargeTables, map-virtual_to_physical_large}
use ice.Tests.Pages.{four_pages, offset}
use ice.Tests.Tables.{
  entry_bytes, tables_state, pagemap, pagemap-HasSizes, no_flag, apart, pagemap-Tables, lead_pml3,
  lead_pml2,
}

absent : has_flags (load64 entry_bytes (offset + 0x1000 + table_index (2 ^ 39) 39 * 8)) 1 ≡ false
unfolding table_index has_flags load_bytes
absent = refl

missing_lem_example :
    (virtual_to_physical offset 0 pagemap (2 ^ 39) 1 tables_state ≡ ok invalid_addr tables_state)
    × (unmap offset 0 true pagemap (2 ^ 39) 1 tables_state ≡ ok false tables_state)
    × (remap offset 0 true pagemap (2 ^ 39) 0x5000 1 Caching.write_back tables_state
        ≡ map offset 0 true pagemap 0x5000 invalid_addr 1 Caching.write_back tables_state)
missing_lem_example =
    missing_lem offset 0 (2 ^ 39) 0x5000 1 true Caching.write_back pagemap tables_state
      pagemap-HasSizes no_flag.0 no_flag.1 (no_pml3 (λ e. omega (arith, e)) absent)

set_page_flags-virtual_to_physical_example :
    (s' : Pmm) × (set_page_flags offset 0 pagemap 0x5123 1 Caching.write_back tables_state
      ≡ ok true s')
    × (load64 s'.mem (entry_at offset 0x5123 pagemap entry_bytes pagemap-Tables)
        ≡ bit_or
            (get_address
              (load64 entry_bytes (entry_at offset 0x5123 pagemap entry_bytes pagemap-Tables)))
            (page_flags 1 Caching.write_back))
    × (virtual_to_physical offset 0 pagemap 0x5123 1 s'
        ≡ ok
            (get_address
                (load64 entry_bytes (entry_at offset 0x5123 pagemap entry_bytes pagemap-Tables))
              + 0x123)
            s')
    × ((a : ℕ)
        → WordsApart a (entry_at offset 0x5123 pagemap entry_bytes pagemap-Tables)
        → load64 s'.mem a ≡ load64 entry_bytes a)
set_page_flags-virtual_to_physical_example =
    set_page_flags-virtual_to_physical offset 0 0x5123 1 pagemap tables_state pagemap-HasSizes
      no_flag.0 no_flag.1 pagemap-Tables apart Caching.write_back

-- The page at 0x7000 is mapped at 0x5000.
abbrev pub mapped_bytes : ℕ → ℕ
mapped_bytes a =
    if a == offset + 0x4028 then 3 else (if a == offset + 0x4029 then 0x70 else entry_bytes a)

abbrev mapped_state : Pmm
mapped_state = record four_pages { mem = mapped_bytes }

moved_pml3 : Leads offset mapped_bytes (offset + 0x1000) (offset + 0x2000)
unfolding tohh ishh has_flags get_address load_bytes
moved_pml3 = record { is_present = refl; target = refl; ne_null = λ e. omega (arith, e) }

moved_pml2 : Leads offset mapped_bytes (offset + 0x2000) (offset + 0x3000)
unfolding tohh ishh has_flags get_address load_bytes
moved_pml2 = record { is_present = refl; target = refl; ne_null = λ e. omega (arith, e) }

moved_pml1 : Leads offset mapped_bytes (offset + 0x3000) (offset + 0x4000)
unfolding tohh ishh has_flags get_address load_bytes
moved_pml1 = record { is_present = refl; target = refl; ne_null = λ e. omega (arith, e) }

-- For the addresses of these two pages the indices above the lowest are 0.
indices :
    (va : ℕ)
    → va < 0x10000
    → (table_index va 39 ≡ 0) × (table_index va 30 ≡ 0) × (table_index va 21 ≡ 0)
indices va h = omega (arith, table_index-eq va 39, table_index-eq va 30, table_index-eq va 21)

abbrev moved-Tables : (va : ℕ) → va < 0x10000 → Tables offset mapped_bytes pagemap va
moved-Tables va h = record {
  pml3 = offset + 0x2000;
  pml2 = offset + 0x3000;
  pml1 = offset + 0x4000;
  top = λ e. omega (arith, e);
  to_pml3 = rw ((indices va h).0) moved_pml3;
  to_pml2 = rw ((indices va h).1) moved_pml2;
  to_pml1 = rw ((indices va h).2) moved_pml1;
}

moved-TwoPages : TwoPages offset mapped_bytes pagemap 0x5000 0x6000
unfolding table_index
moved-TwoPages = record {
  from = moved-Tables 0x5000 (omega arith);
  to = moved-Tables 0x6000 (omega arith);
  from_apart = record {
    from_top = inl (omega arith);
    from_pml3 = inl (omega arith);
    from_pml2 = inl (omega arith);
  };
  to_apart = record {
    from_top = inl (omega arith);
    from_pml3 = inl (omega arith);
    from_pml2 = inl (omega arith);
  };
  to_way = record {
    from_top = inl (omega arith);
    from_pml3 = inl (omega arith);
    from_pml2 = inl (omega arith);
  };
  from_way = record {
    from_top = inl (omega arith);
    from_pml3 = inl (omega arith);
    from_pml2 = inl (omega arith);
  };
  entries_apart = inl (omega arith);
}

moved_present :
    (has_flags (load64 mapped_bytes (offset + 0x4000 + table_index 0x5000 12 * 8)) 1 ≡ true)
    × (load64 mapped_bytes (offset + 0x4000 + table_index 0x6000 12 * 8) < 2 ^ 64)
unfolding table_index has_flags load_bytes
moved_present = (refl, omega arith)

remap_lem_example :
    (s' : Pmm) × (remap offset 0 true pagemap 0x5000 0x6000 1 Caching.write_back mapped_state
      ≡ ok true s')
    × (virtual_to_physical offset 0 pagemap 0x6000 1 s'
        ≡ ok
            (get_address (load64 mapped_bytes (offset + 0x4000 + table_index 0x5000 12 * 8)) + 0)
            s')
    × (virtual_to_physical offset 0 pagemap 0x5000 1 s' ≡ ok invalid_addr s')
unfolding moved-TwoPages
remap_lem_example =
    remap_lem offset 0 0x5000 0x6000 1 true Caching.write_back pagemap mapped_state pagemap-HasSizes
      no_flag.0 no_flag.1 moved-TwoPages refl moved_present.0 moved_present.1

-- A page of 2 MiB for the addresses from 0x200000 on.
large_flag : (has_flags 33 Entry.Flag.llpage ≡ false) × (has_flags 33 Entry.Flag.lpage ≡ true)
unfolding has_flags
large_flag = (refl, refl)

abbrev large-LargeTables : LargeTables offset entry_bytes pagemap 0x200123
large-LargeTables = record {
  pml3 = offset + 0x2000;
  pml2 = offset + 0x3000;
  top = λ e. omega (arith, e);
  to_pml3 = unfold table_index in lead_pml3;
  to_pml2 = unfold table_index in lead_pml2;
}

large_apart :
    WordsApart
      (offset + 0x1000 + table_index 0x200123 39 * 8)
      (offset + 0x3000 + table_index 0x200123 21 * 8)
    × WordsApart
        (offset + 0x2000 + table_index 0x200123 30 * 8)
        (offset + 0x3000 + table_index 0x200123 21 * 8)
    × (load64 entry_bytes (offset + 0x3000 + table_index 0x200123 21 * 8) < 2 ^ 64)
unfolding table_index load_bytes
large_apart = (inl (omega arith), inl (omega arith), omega arith)

-- 0x400000 was mapped, and the address is translated as if 0x401000 was.
map-virtual_to_physical_large_example :
    (s' : Pmm) × (map offset 0 true pagemap 0x200123 0x400000 33 Caching.write_back tables_state
      ≡ ok true s')
    × (virtual_to_physical offset 0 pagemap 0x200123 33 s' ≡ ok 0x401123 s')
map-virtual_to_physical_large_example =
    map-virtual_to_physical_large offset 0 0x200123 0x400000 33 true Caching.write_back pagemap
      tables_state pagemap-HasSizes large_flag.0 large_flag.1 large-LargeTables large_apart.0
      large_apart.1 large_apart.2 (omega arith) refl
