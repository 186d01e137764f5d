-- ===== src/Memory/Ranges.antt =====
-- kernel/memory/memmap.cpp: the ranges of a page map. A `local` is not changed once it is made, and
-- is a value; a `global` gets new locals, and is named by its place in a list. These objects are kept
-- beside the bytes of the memory, so what the heap does to store them is left out.
pub mod Lookup
pub mod Destructor
pub mod Fork
use ice.Prelude.{
  ℕ, zero, suc, ◌+◌, ◌-◌, ◌*◌, ◌/◌, ◌%◌, ◌^◌, bit_and, bit_or, Bool, true, false, not, ◌||◌, ◌==◌,
  ltb, leb, if◌then◌else◌, List, [], ◌∷◌, ◌++◌, Option, none, some,
}
use ice.Utils.Math.{add64, sub64, align_down, align_up, tohh}
use ice.Memory.Physical.{Pmm}
use ice.Memory.Slab.{Run, ok, panic, ◌>>=◌, ◌>>◌, pure, read, write, copy, physical_alloc}
use ice.Memory.Paging.{Pagemap, map, virtual_to_pt_entry}
use ice.Memory.Paging.Entry.{
  default_caching, set_flags, get_flags, get_address, set_address, has_flags,
}
use ice.Memory.Paging.Entry
use ice.Memory.Paging.Lifetime.{new_pagemap}

abbrev pub map_shared : ℕ
map_shared = 0x01

abbrev pub map_anonymous : ℕ
map_anonymous = 0x20

abbrev pub protocol_read : ℕ
protocol_read = 1

abbrev pub protocol_write : ℕ
protocol_write = 2

abbrev pub protocol_exec : ℕ
protocol_exec = 4

-- `global` is the place of the local's global.
pub record Local : Type 0 where
  pub global : ℕ
  pub pagemap : Pagemap
  pub base : ℕ
  pub length : ℕ
  pub offset : ℕ
  pub prot : ℕ
  pub flags : ℕ

pub record Global : Type 0 where
  pub locals : List Local
  pub shadow : Pagemap
  pub base : ℕ
  pub length : ℕ
  pub offset : ℕ

-- A page map with its ranges.
pub record Space : Type 0 where
  pub pagemap : Pagemap
  pub ranges : List Local

-- The flags for a protection.
unfoldable pub protocol_flags : ℕ → ℕ
protocol_flags prot =
    let f0 : ℕ = Entry.Flag.user in
    let f1 = if has_flags prot protocol_read then bit_or f0 Entry.Flag.read else f0 in
    let f2 = if has_flags prot protocol_write then bit_or f1 Entry.Flag.write else f1 in
    if has_flags prot protocol_exec then bit_or f2 Entry.Flag.exec else f2

-- The address lies outside of the local; the end is a 64-bit sum.
abbrev pub is_outside : Local → ℕ → Bool
is_outside l address = ltb address l.base || leb (add64 l.base l.length) address

-- The range, the number of the address's page, and its number in the mapped object.
unfoldable pub address_to_range : ℕ → List Local → ℕ → Option (Local × ℕ × ℕ)
address_to_range page_size [] address = none
address_to_range page_size (l ∷ ls) address =
    let rest = address_to_range page_size ls address in
    let map_page = address / page_size in
    let page = add64 (l.offset / page_size) (sub64 map_page (l.base / page_size)) in
    if is_outside l address then rest else some (l, map_page, page)

-- `global->locals.push_back(local)` for the global at a place.
unfoldable pub add_local : ℕ → Local → List Global → List Global
add_local place l [] = []
add_local zero l (g ∷ gs) = record g { locals = g.locals ++ (l ∷ []) } ∷ gs
add_local (suc place) l (g ∷ gs) = g ∷ add_local place l gs

-- The global that `fork` makes for a private range; its base, length and offset are those of the
-- local's global.
unfoldable pub forked_global : ℕ → Local → Pagemap → List Global → Global
forked_global place l shadow [] = record {
  locals = l ∷ [];
  shadow = shadow;
  base = 0;
  length = 0;
  offset = 0;
}
forked_global zero l shadow (g ∷ gs) = record g { locals = l ∷ []; shadow = shadow }
forked_global (suc place) l shadow (g ∷ gs) = forked_global place l shadow gs

module _ (hhdm_offset slabs : ℕ) (gib1_pages : Bool) where
  pub map_locals : List Local → ℕ → ℕ → ℕ → Pmm → Run Bool
  map_locals [] virtual_address physical_address flags = pure true
  map_locals (l ∷ ls) virtual_address physical_address flags =
      let rest = map_locals ls virtual_address physical_address flags in
      if is_outside l virtual_address then rest else do
        done ←
            map hhdm_offset slabs gib1_pages l.pagemap virtual_address physical_address flags
              default_caching
        if done then rest else pure false

  -- `global::map_page`.
  pub map_page : Global → ℕ → ℕ → ℕ → Pmm → Run Bool
  map_page g virtual_address physical_address prot =
      let flags = protocol_flags prot in
      do
        done ←
            map hhdm_offset slabs gib1_pages g.shadow virtual_address physical_address flags
              default_caching
        if done then map_locals g.locals virtual_address physical_address flags else pure false

  unfoldable pub map_pages : ℕ → ℕ → ℕ → Global → ℕ → ℕ → ℕ → Pmm → Run Bool
  map_pages zero i page_size g virtual_address physical_address prot = pure true
  map_pages (suc left) i page_size g virtual_address physical_address prot =
      let rest = map_pages left (i + page_size) page_size g virtual_address physical_address prot in
      do
        done ← map_page g (add64 virtual_address i) (add64 physical_address i) prot
        if done then rest else pure false

  module _ (kernel_pagemap : Option Pagemap) where
    -- `map_range` of memmap.cpp. The fields that it does not set, the length of the local and the
    -- offsets, are 0: `make_shared` initialises the objects.
    -- The results are the page map, the globals, and whether every page was mapped.
    unfoldable pub map_range :
        Space → List Global → ℕ → ℕ → ℕ → ℕ → ℕ → ℕ → Pmm → Run (Space × List Global × Bool)
    map_range space globals place virtual_address physical_address length prot flags =
        let page_size = space.pagemap.page_size in
        let aligned_virtual_address = align_down virtual_address page_size in
        let aligned_length =
          align_up (add64 length (sub64 virtual_address aligned_virtual_address)) page_size in
        do
          shadow ← new_pagemap hhdm_offset slabs kernel_pagemap
          let l : Local = record {
            global = place;
            pagemap = space.pagemap;
            base = aligned_virtual_address;
            length = 0;
            offset = 0;
            prot = prot;
            flags = bit_or flags map_anonymous;
          }
          let g : Global = record {
            locals = l ∷ [];
            shadow = shadow;
            base = aligned_virtual_address;
            length = aligned_length;
            offset = 0;
          }
          done ←
              map_pages ((aligned_length + page_size - 1) / page_size) 0 page_size g
                aligned_virtual_address physical_address prot
          pure (record space { ranges = space.ranges ++ (l ∷ []) }, globals ++ (g ∷ []), done)

  -- One page of a shared range in `fork`: the entry's value is copied.
  unfoldable pub share_page : Pagemap → Pagemap → ℕ → Pmm → Run (Unit {0})
  share_page this pagemap i = do
    old_pt_entry ← virtual_to_pt_entry hhdm_offset slabs this i false this.page_size
    if old_pt_entry == 0 then pure tt else (do
      slot ← virtual_to_pt_entry hhdm_offset slabs pagemap i true pagemap.page_size
      value ← read old_pt_entry
      write slot value)

  -- One page of a private range in `fork`: `new_pt_entry` is looked up in `this`, as the old one is.
  unfoldable pub copy_page : Pagemap → Pagemap → Pagemap → ℕ → Pmm → Run (Unit {0})
  copy_page this pagemap shadow i = do
    old_pt_entry ← virtual_to_pt_entry hhdm_offset slabs this i true pagemap.page_size
    if old_pt_entry == 0 then pure tt else (do
      new_pt_entry ← virtual_to_pt_entry hhdm_offset slabs this i true pagemap.page_size
      new_shadow_pt_entry ← virtual_to_pt_entry hhdm_offset slabs shadow i true shadow.page_size
      old ← read old_pt_entry
      page ← physical_alloc hhdm_offset (this.page_size / 0x1000)
      copy (tohh hhdm_offset page) (tohh hhdm_offset (get_address old)) this.page_size
      write new_pt_entry 0
      flags ← read old_pt_entry
      cleared ← read new_pt_entry
      write new_pt_entry (set_flags cleared (get_flags flags) true)
      flagged ← read new_pt_entry
      write new_pt_entry (set_address flagged page)
      value ← read new_pt_entry
      write new_shadow_pt_entry value)

  -- `for (i = start; i < end; i += step)`, rounds left first.
  unfoldable pub fork_pages : ℕ → ℕ → ℕ → (ℕ → Pmm → Run (Unit {0})) → Pmm → Run (Unit {0})
  fork_pages zero i step body = pure tt
  fork_pages (suc left) i step body = body i >> fork_pages left (i + step) step body

  abbrev pub rounds : ℕ → ℕ → ℕ → ℕ
  rounds from to step = (to - from + step - 1) / step

  -- A new local for each range, with the globals; the local's `pagemap` is the old one's.
  unfoldable pub fork_ranges :
      Option Pagemap
      → Space
      → Pagemap
      → List Local
      → List Global
      → Pmm
      → Run (List Local × List Global)
  fork_ranges kernel_pagemap this pagemap [] globals = pure ([], globals)
  fork_ranges kernel_pagemap this pagemap (l ∷ ls) globals =
      let step = this.pagemap.page_size in
      let end = add64 l.base l.length in
      if has_flags l.flags map_shared
      then (do
        fork_pages (rounds l.base end step) l.base step (share_page this.pagemap pagemap)
        (news, globals') ← fork_ranges kernel_pagemap this pagemap ls (add_local l.global l globals)
        pure (l ∷ news, globals'))
      else (do
        shadow ← new_pagemap hhdm_offset slabs kernel_pagemap
        fork_pages (rounds l.flags end step) l.flags step (copy_page this.pagemap pagemap shadow)
        (news, globals') ←
            fork_ranges kernel_pagemap this pagemap ls
              (globals ++ (forked_global l.global l shadow globals ∷ []))
        pure (l ∷ news, globals'))

  -- `fork`.
  unfoldable pub fork : Option Pagemap → Space → List Global → Pmm → Run (Space × List Global)
  fork kernel_pagemap this globals = do
    pagemap ← new_pagemap hhdm_offset slabs kernel_pagemap
    (news, globals') ← fork_ranges kernel_pagemap this pagemap this.ranges globals
    pure (record { pagemap = pagemap; ranges = news }, globals')
