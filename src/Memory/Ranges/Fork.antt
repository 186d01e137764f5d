-- ===== src/Memory/Ranges/Fork.antt =====
-- A page of a shared range in `fork` of kernel/memory/memmap.cpp.
use ice.Prelude.{
  ℕ, ◌+◌, ◌%◌, ◌^◌, ◌≡◌, ◌<◌, ap, ◌∙◌, arith, load64, store64, load64-store64, load64-store64_ne,
  Bool, true, false, ne→==,
}
use ice.Utils.Math.{add64}
use ice.Memory.Physical.{Pmm}
use ice.Memory.Slab.{ok}
use ice.Memory.Paging.{Pagemap, virtual_to_physical, kib4}
use ice.Memory.Paging.Entry.{has_flags, get_address}
use ice.Memory.Paging.Entry.Arch
use ice.Memory.Paging.Entry.Flag
use ice.Memory.Paging.Walk.{HasSizes, Tables, virtual_to_pt_entry_lem}
use ice.Memory.Paging.Translate.{
  WordsApart, Apart, entry_at, get_page_size-small, virtual_to_physical-eq, add64-small,
}
use ice.Memory.Paging.Effects.{OneWord, WayApart, Tables-OneWord, own_way}
use ice.Memory.Paging.Remap.{get_address_bounds}
use ice.Memory.Ranges.{share_page}

module _ (hhdm slabs i flags : ℕ) (gib1_pages : Bool) (this pagemap : Pagemap) (s : Pmm)
    (z : HasSizes this) (z' : HasSizes pagemap) (h : has_flags flags Flag.llpage ≡ false)
    (g : has_flags flags Flag.lpage ≡ false) (t : Tables hhdm s.mem this i)
    (t' : Tables hhdm s.mem pagemap i) where
  abbrev old_entry : ℕ
  old_entry = entry_at hhdm i this s.mem t

  abbrev new_entry : ℕ
  new_entry = entry_at hhdm i pagemap s.mem t'

  abbrev shared : Pmm
  shared = record s { mem = store64 s.mem new_entry (load64 s.mem old_entry) }

  share_page-shared : share_page hhdm slabs gib1_pages this pagemap i s ≡ ok tt shared
  unfolding share_page
  share_page-shared = ground (
    arith,
    z.small,
    z'.small,
    virtual_to_pt_entry_lem hhdm slabs i this false s z t,
    ne→== old_entry 0 (λ e. t.to_pml1.ne_null (omega arith)),
    virtual_to_pt_entry_lem hhdm slabs i pagemap true s z' t',
  )

  address_small :
      add64 (get_address (load64 s.mem old_entry)) (i % kib4)
      ≡ get_address (load64 s.mem old_entry) + i % kib4
  address_small = add64-small _ _ (omega (arith, get_address_bounds (load64 s.mem old_entry)))

  -- Let the tables of `i` be present in both page maps, the new entry of its 4 KiB page apart from the
  -- entries above it, from the old entry and from those above that, and the old entry a 64-bit word
  -- and present. Then the step of `fork` for a shared page gives `i` the same translation in both.
  pub share_page_lem :
      Apart hhdm s.mem pagemap i t'
      → WayApart hhdm s.mem this i t new_entry
      → WordsApart old_entry new_entry
      → load64 s.mem old_entry < 2 ^ 64
      → has_flags (load64 s.mem old_entry) Arch.present ≡ true
      → (s' : Pmm) × (share_page hhdm slabs gib1_pages this pagemap i s ≡ ok tt s')
        × (virtual_to_physical hhdm slabs this i flags s'
            ≡ ok (get_address (load64 s.mem old_entry) + i % 0x1000) s')
        × (virtual_to_physical hhdm slabs pagemap i flags s'
            ≡ ok (get_address (load64 s.mem old_entry) + i % 0x1000) s')
  share_page_lem d w a word present =
      let value = load64 s.mem old_entry in
      let kept : OneWord s.mem shared.mem new_entry = load64-store64_ne s.mem new_entry value in
      let same : load64 shared.mem old_entry ≡ value = kept old_entry a in
      let copied : load64 shared.mem new_entry ≡ value =
        load64-store64 s.mem new_entry value word in
      (
        shared,
        share_page-shared,
        virtual_to_physical-eq hhdm slabs i flags this shared z
              (get_page_size-small this flags z h g)
              (Tables-OneWord hhdm i this s.mem shared.mem new_entry t w kept) t.to_pml1.ne_null
              (ap (λ v. has_flags v Arch.present) same ∙ present)
            ∙ ap (λ x. ok x shared)
                (ap (λ v. add64 (get_address v) (i % kib4)) same ∙ address_small),
        virtual_to_physical-eq hhdm slabs i flags pagemap shared z'
              (get_page_size-small pagemap flags z' h g)
              (Tables-OneWord hhdm i pagemap s.mem shared.mem new_entry t' (own_way d) kept)
              t'.to_pml1.ne_null (ap (λ v. has_flags v Arch.present) copied ∙ present)
            ∙ ap (λ x. ok x shared)
                (ap (λ v. add64 (get_address v) (i % kib4)) copied ∙ address_small),
      )
