-- ===== src/Tests/Ranges.antt =====
-- The ranges of a page map, and new slabs, on concrete values.
use ice.Prelude.{true, ◌≡◌, refl, arith, some, [], ◌∷◌}
use ice.Memory.Paging.{map}
use ice.Memory.Paging.Entry.{default_caching, has_flags}
use ice.Memory.Ranges.{Local, Global, address_to_range, map_page, protocol_flags, add_local}
use ice.Memory.Ranges.Lookup.{map_page-AllEmpty}
use ice.Tests.Pages.{offset}
use ice.Tests.Tables.{pagemap, tables_state}

-- 0x5000 to 0x6fff, at the offset 0x2000 of its object.
abbrev pub range : Local
range = record {
  global = 0;
  pagemap = pagemap;
  base = 0x5000;
  length = 0x2000;
  offset = 0x2000;
  prot = 1;
  flags = 0;
}

address_to_range_runs : address_to_range 0x1000 (range ∷ []) 0x6123 ≡ some (range, 6, 3)
unfolding address_to_range
address_to_range_runs = refl

abbrev unset_range : Local
unset_range = record range { length = 0 }

abbrev pub shared : Global
shared = record {
  locals = unset_range ∷ [];
  shadow = pagemap;
  base = 0x5000;
  length = 0x2000;
  offset = 0;
}

map_page-AllEmpty_example :
    map_page offset 0 true shared 0x5000 0x7000 1 tables_state
    ≡ map offset 0 true pagemap 0x5000 0x7000 (protocol_flags 1) default_caching tables_state
map_page-AllEmpty_example =
    map_page-AllEmpty offset 0 true shared 0x5000 0x7000 1 tables_state (refl, omega arith, tt)

protocol_flags_runs : protocol_flags 7 ≡ 15
unfolding protocol_flags has_flags
protocol_flags_runs = refl

add_local_runs :
    add_local 0 range (shared ∷ []) ≡ record shared { locals = unset_range ∷ range ∷ [] } ∷ []
unfolding add_local
add_local_runs = refl
