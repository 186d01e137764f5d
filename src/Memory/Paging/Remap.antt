-- ===== src/Memory/Paging/Remap.antt =====
-- Moving a page to another address: `remap` of kernel/include/memory/virtual.hpp.
use ice.Prelude.{
  ℕ, ◌+◌, ◌%◌, ◌^◌, ◌≡◌, ◌<◌, ap, ◌∙◌, arith, Mem, load64, Bool, true, false, bit_and_field,
}
use ice.Memory.Physical.{Pmm}
use ice.Memory.Slab.{ok}
use ice.Memory.Paging.{Pagemap, virtual_to_physical, invalid_addr}
use ice.Memory.Paging.Entry.{has_flags, get_address, Caching}
use ice.Memory.Paging.Entry.Arch
use ice.Memory.Paging.Entry.Flag
use ice.Memory.Paging.Change.{remap}
use ice.Memory.Paging.Walk.{HasSizes, Tables}
use ice.Memory.Paging.Translate.{
  WordsApart, Apart, entry_at, get_page_size-small, virtual_to_physical-eq, map-virtual_to_physical,
}
use ice.Memory.Paging.Effects.{
  WayApart, own_way, zero_absent, Tables-OneWord, unmap-virtual_to_physical,
  virtual_to_physical-absent,
}

pub get_address_bounds : (v : ℕ) → (get_address v < 2 ^ 52) × (get_address v % 0x1000 ≡ 0)
unfolding get_address
get_address_bounds v = rw (bit_and_field 40 12 v) (omega arith, omega arith)

-- Two addresses with their tables; each page's entry is apart from both ways, and from the other.
pub record TwoPages (hhdm : ℕ) (m : Mem) (p : Pagemap) (old new : ℕ) : Type 0 where
  pub from : Tables hhdm m p old
  pub to : Tables hhdm m p new
  pub from_apart : Apart hhdm m p old from
  pub to_apart : Apart hhdm m p new to
  pub to_way : WayApart hhdm m p new to (entry_at hhdm old p m from)
  pub from_way : WayApart hhdm m p old from (entry_at hhdm new p m to)
  pub entries_apart : WordsApart (entry_at hhdm old p m from) (entry_at hhdm new p m to)

module _ (hhdm slabs old new flags : ℕ) (gib1_pages : Bool) (cache : Caching) (p : Pagemap)
    (s : Pmm) (z : HasSizes p) (h : has_flags flags Flag.llpage ≡ false)
    (g : has_flags flags Flag.lpage ≡ false) (w : TwoPages hhdm s.mem p old new) where
  abbrev from_entry : ℕ
  from_entry = entry_at hhdm old p s.mem w.from

  abbrev to_entry : ℕ
  to_entry = entry_at hhdm new p s.mem w.to

  -- Let the tables of a page's start `old` and of `new` be present, the entries of their 4 KiB pages
  -- apart from each other and from those on both ways, 64-bit words, and the page of `old` mapped, and
  -- let `flags` be without the large pages'. Then `remap` succeeds, `new` has the translation
  -- that `old` had with its offset in the page, and `old` has none.
  pub remap_lem :
      old % 0x1000 ≡ 0
      → has_flags (load64 s.mem from_entry) Arch.present ≡ true
      → load64 s.mem to_entry < 2 ^ 64
      → (s' : Pmm) × (remap hhdm slabs gib1_pages p old new flags cache s ≡ ok true s')
        × (virtual_to_physical hhdm slabs p new flags s'
            ≡ ok (get_address (load64 s.mem from_entry) + new % 0x1000) s')
        × (virtual_to_physical hhdm slabs p old flags s' ≡ ok invalid_addr s')
  unfolding remap
  remap_lem start present word =
      let pa = get_address (load64 s.mem from_entry) in
      let (low, whole) = get_address_bounds (load64 s.mem from_entry) in
      let small = get_page_size-small p flags z h g in
      let before : virtual_to_physical hhdm slabs p old flags s ≡ ok pa s =
        virtual_to_physical-eq hhdm slabs old flags p s z small w.from w.from.to_pml1.ne_null
          present
        ∙ ap (λ x. ok x s) (omega (arith, start, low)) in
      let (s1, unmapped, gone, zeroed, kept) =
        unmap-virtual_to_physical hhdm slabs old flags p s z h g w.from w.from_apart gib1_pages in
      let to1 = Tables-OneWord hhdm new p s.mem s1.mem from_entry w.to w.to_way kept in
      let (s2, mapped, there, kept2) =
        map-virtual_to_physical hhdm slabs new pa flags gib1_pages cache p s1 z h g to1
          record {
            from_top = w.to_apart.from_top;
            from_pml3 = w.to_apart.from_pml3;
            from_pml2 = w.to_apart.from_pml2;
          }
          (omega (arith, word, kept to_entry (omega (arith, w.entries_apart)))) low whole in
      (
        s2,
        ground (arith, before, unmapped, mapped),
        there,
        virtual_to_physical-absent hhdm slabs old flags p s2 z small
            (Tables-OneWord hhdm old p s1.mem s2.mem to_entry
              (Tables-OneWord hhdm old p s.mem s1.mem from_entry w.from (own_way w.from_apart) kept)
              record {
                from_top = w.from_way.from_top;
                from_pml3 = w.from_way.from_pml3;
                from_pml2 = w.from_way.from_pml2;
              }
              kept2)
            (ap (λ v. has_flags v Arch.present) (kept2 from_entry w.entries_apart ∙ zeroed)
              ∙ zero_absent),
      )
