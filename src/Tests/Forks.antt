-- ===== src/Tests/Forks.antt =====
-- Two page maps of kernel/memory/memmap.cpp, and the end of one.
use ice.Prelude.{
  ℕ, true, ◌+◌, ◌*◌, ◌^◌, ◌≡◌, ◌≢◌, ◌⊎◌, ◌<◌, inl, refl, arith, if◌then◌else◌, load64, load_bytes,
  ◌==◌, [], ◌∷◌, some, none,
}
use ice.Utils.Math.{ishh, tohh}
use ice.Memory.Physical.{Pmm}
use ice.Memory.Slab.{ok}
use ice.Memory.Paging.{Pagemap, table_index, virtual_to_physical}
use ice.Memory.Paging.Entry.{get_address, has_flags}
use ice.Memory.Paging.Lifetime.{destroy_pagemap}
use ice.Memory.Paging.Walk.{Leads, Tables}
use ice.Memory.Paging.Translate.{Apart, entry_at}
use ice.Memory.Paging.Effects.{WayApart}
use ice.Memory.Ranges.{Space, share_page}
use ice.Memory.Ranges.Fork.{share_page_lem}
use ice.Memory.Ranges.Destructor.{destructor, destructor_lem}
use ice.Tests.Pages.{four_pages, offset}
use ice.Tests.Tables.{pagemap, pagemap-HasSizes, no_flag}
use ice.Tests.Mappings.{mapped_bytes}
use ice.Tests.Ranges.{range}

-- The tables of the new page map lie 0x10000 bytes further on.
abbrev fork_bytes : ℕ → ℕ
fork_bytes a =
    if a == offset + 0x11000
    then 3
    else (if a == offset + 0x11001
        then 0x20
        else (if a == offset + 0x11002
            then 1
            else (if a == offset + 0x12000
                then 3
                else (if a == offset + 0x12001
                    then 0x30
                    else (if a == offset + 0x12002
                        then 1
                        else (if a == offset + 0x13000
                            then 3
                            else (if a == offset + 0x13001
                                then 0x40
                                else (if a == offset + 0x13002 then 1 else mapped_bytes a))))))))

abbrev fork_state : Pmm
fork_state = record four_pages { mem = fork_bytes }

abbrev child_pagemap : Pagemap
child_pagemap = record pagemap { top_level = offset + 0x11000 }

leads :
    Leads offset fork_bytes (offset + 0x1000 + table_index 0x5000 39 * 8) (offset + 0x2000)
    × Leads offset fork_bytes (offset + 0x2000 + table_index 0x5000 30 * 8) (offset + 0x3000)
    × Leads offset fork_bytes (offset + 0x3000 + table_index 0x5000 21 * 8) (offset + 0x4000)
unfolding table_index tohh ishh has_flags get_address load_bytes
leads = (
  record { is_present = refl; target = refl; ne_null = λ e. omega (arith, e) },
  record { is_present = refl; target = refl; ne_null = λ e. omega (arith, e) },
  record { is_present = refl; target = refl; ne_null = λ e. omega (arith, e) },
)

new-Leads :
    Leads offset fork_bytes (offset + 0x11000 + table_index 0x5000 39 * 8) (offset + 0x12000)
    × Leads offset fork_bytes (offset + 0x12000 + table_index 0x5000 30 * 8) (offset + 0x13000)
    × Leads offset fork_bytes (offset + 0x13000 + table_index 0x5000 21 * 8) (offset + 0x14000)
unfolding table_index tohh ishh has_flags get_address load_bytes
new-Leads = (
  record { is_present = refl; target = refl; ne_null = λ e. omega (arith, e) },
  record { is_present = refl; target = refl; ne_null = λ e. omega (arith, e) },
  record { is_present = refl; target = refl; ne_null = λ e. omega (arith, e) },
)

abbrev old-Tables : Tables offset fork_bytes pagemap 0x5000
old-Tables = record {
  pml3 = offset + 0x2000;
  pml2 = offset + 0x3000;
  pml1 = offset + 0x4000;
  top = λ e. omega (arith, e);
  to_pml3 = leads.0;
  to_pml2 = leads.1;
  to_pml1 = leads.2;
}

abbrev new-Tables : Tables offset fork_bytes child_pagemap 0x5000
new-Tables = record {
  pml3 = offset + 0x12000;
  pml2 = offset + 0x13000;
  pml1 = offset + 0x14000;
  top = λ e. omega (arith, e);
  to_pml3 = new-Leads.0;
  to_pml2 = new-Leads.1;
  to_pml1 = new-Leads.2;
}

new-Apart : Apart offset fork_bytes child_pagemap 0x5000 new-Tables
unfolding table_index
new-Apart = record {
  from_top = inl (omega arith);
  from_pml3 = inl (omega arith);
  from_pml2 = inl (omega arith);
}

old-WayApart :
    WayApart offset fork_bytes pagemap 0x5000 old-Tables
      (entry_at offset 0x5000 child_pagemap fork_bytes new-Tables)
unfolding table_index
old-WayApart = record {
  from_top = inl (omega arith);
  from_pml3 = inl (omega arith);
  from_pml2 = inl (omega arith);
}

old_word :
    (offset + 0x4000 + table_index 0x5000 12 * 8 + 8 < offset + 0x14000)
    × (load64 fork_bytes (offset + 0x4000 + table_index 0x5000 12 * 8) < 2 ^ 64)
    × (has_flags (load64 fork_bytes (offset + 0x4000 + table_index 0x5000 12 * 8)) 1 ≡ true)
unfolding table_index load_bytes has_flags
old_word = (omega arith, omega arith, refl)

share_page_lem_example :
    (s' : Pmm) × (share_page offset 0 true pagemap child_pagemap 0x5000 fork_state ≡ ok tt s')
    × (virtual_to_physical offset 0 pagemap 0x5000 1 s'
        ≡ ok (get_address (load64 fork_bytes (offset + 0x4000 + table_index 0x5000 12 * 8)) + 0) s')
    × (virtual_to_physical offset 0 child_pagemap 0x5000 1 s'
        ≡ ok (get_address (load64 fork_bytes (offset + 0x4000 + table_index 0x5000 12 * 8)) + 0) s')
share_page_lem_example =
    share_page_lem offset 0 0x5000 1 true pagemap child_pagemap fork_state pagemap-HasSizes
      record { small = refl; large = refl; largest = refl } no_flag.0 no_flag.1 old-Tables
      new-Tables new-Apart old-WayApart (inl (omega (arith, old_word.0))) old_word.1 old_word.2

abbrev with_range : Space
with_range = record { pagemap = pagemap; ranges = range ∷ [] }

destructor_lem_example :
    ((with_range.ranges ≡ [])
      × (destructor offset 0 true 9 with_range four_pages
          ≡ some (destroy_pagemap offset 0 pagemap four_pages)))
    ⊎ ((with_range.ranges ≢ []) × (destructor offset 0 true 9 with_range four_pages ≡ none))
destructor_lem_example = destructor_lem offset 0 true 9 with_range four_pages (omega arith)
