-- ===== src/Memory/Paging/Large.antt =====
-- Pages of 2 MiB in kernel/arch/x86_64/memory/virtual.cpp: the walk, `map` and the translation.
pub mod Entry
use ice.Prelude.{
  ℕ, ◌+◌, ◌*◌, ◌/◌, ◌%◌, ◌^◌, ◌≡◌, ◌≢◌, ◌<◌, ◌⊎◌, inl, inr, refl, sym, ap, ◌∙◌, arith, Mem, load64,
  store64, load64-store64, load64-store64_ne, Bool, true, false, not, ne→==, ==_iff, ◌==◌,
  if◌then◌else◌, bit_or, bit_and, bit_not, bit-bit_or, bit-le_one, bit-div, bit_and_mask,
}
use ice.Utils.Math.{tohh, add64}
use ice.Memory.Physical.{Pmm}
use ice.Memory.Slab.{ok}
use ice.Memory.Paging.{
  Pagemap, virtual_to_pt_entry, virtual_to_physical, table_index, get_page_size, kib4, mib2, gib1,
  map, map_one,
}
use ice.Memory.Paging.Entry.{
  has_flags, get_address, set_address, set_flags, flags_to_arch, cache_to_flags, Caching,
}
use ice.Memory.Paging.Entry.Arch
use ice.Memory.Paging.Entry.Flag
use ice.Memory.Paging.Walk.{HasSizes, Leads, get_next_lvl-Leads}
use ice.Memory.Paging.Translate.{WordsApart, Leads-kept, add64-small}
use ice.Memory.Paging.Translate.Entry.{set_flags-lt, set_address-lt}
use Entry.{
  has_pat, large_flags, large_entry, large_flags-lt, large_entry-present, get_address-large_entry,
}

-- The tables on the way to the entry of the address's page of 2 MiB.
pub record LargeTables (hhdm : ℕ) (m : Mem) (p : Pagemap) (va : ℕ) : Type 0 where
  pub pml3 : ℕ
  pub pml2 : ℕ
  pub top : p.top_level ≢ 0
  pub to_pml3 : Leads hhdm m (p.top_level + table_index va 39 * 8) pml3
  pub to_pml2 : Leads hhdm m (pml3 + table_index va 30 * 8) pml2

abbrev pub large_entry_at : (hhdm va : ℕ) (p : Pagemap) (m : Mem) → LargeTables hhdm m p va → ℕ
large_entry_at hhdm va p m t = t.pml2 + table_index va 21 * 8

virtual_to_pt_entry-LargeTables :
    (hhdm slabs va : ℕ) (p : Pagemap) (allocate : Bool) (s : Pmm)
    → HasSizes p
    → (t : LargeTables hhdm s.mem p va)
    → virtual_to_pt_entry hhdm slabs p va allocate mib2 s ≡ ok (large_entry_at hhdm va p s.mem t) s
unfolding virtual_to_pt_entry
virtual_to_pt_entry-LargeTables hhdm slabs va p allocate s z t = ground (
  arith,
  ne→== p.top_level 0 t.top,
  get_next_lvl-Leads hhdm slabs p.top_level (table_index va 39) t.pml3 allocate s t.top t.to_pml3,
  ne→== t.pml3 0 t.to_pml3.ne_null,
  ne→== mib2 p.llpage_size (omega (arith, z.largest)),
  get_next_lvl-Leads hhdm slabs t.pml3 (table_index va 30) t.pml2 allocate s t.to_pml3.ne_null
      t.to_pml2,
  ne→== t.pml2 0 t.to_pml2.ne_null,
  (==_iff mib2 p.lpage_size).1 (sym z.large),
)

module _ (hhdm slabs va pa flags : ℕ) (gib1_pages : Bool) (cache : Caching) (p : Pagemap) (s : Pmm)
    (z : HasSizes p) (h : has_flags flags Flag.llpage ≡ false)
    (g : has_flags flags Flag.lpage ≡ true) (t : LargeTables hhdm s.mem p va) where
  abbrev entry : ℕ
  entry = large_entry_at hhdm va p s.mem t

  size : get_page_size p flags ≡ mib2
  unfolding get_page_size
  size = rw (h, g, z.large) refl

  abbrev mapped : Mem
  mapped =
      store64 (store64 s.mem entry (set_address (load64 s.mem entry) pa)) entry
        (large_entry (load64 s.mem entry) pa flags cache)

  map-mapped :
      load64 s.mem entry < 2 ^ 64
      → pa < 2 ^ 64
      → map hhdm slabs gib1_pages p va pa flags cache s ≡ ok true (record s { mem = mapped })
  unfolding map map_one
  map-mapped ho hp =
      let first = set_address (load64 s.mem entry) pa in
      ground (
        arith,
        size,
        ne→== mib2 p.llpage_size (omega (arith, z.largest)),
        ne→== mib2 p.page_size (omega (arith, z.small)),
        virtual_to_pt_entry-LargeTables hhdm slabs va p true s z t,
        ne→== entry 0 (λ e. t.to_pml2.ne_null (omega arith)),
        load64-store64 s.mem entry first (set_address-lt (load64 s.mem entry) pa ho hp),
      )

  -- Let the tables of `va` down to the entry of its page of 2 MiB be present, this entry apart from
  -- those above it and a 64-bit word, `pa` the address of a page of 2 MiB below 2 ^ 52, and let
  -- `flags` ask for such a page. Then `map` succeeds, and `virtual_to_physical` in the new state gives
  -- `pa` with the offset of `va` in the page, but with 0x1000 more for the kinds of caching that use
  -- the flag PAT, the default among them: for a large page this flag is bit 12, in the field of the
  -- address.
  pub map-virtual_to_physical_large :
      WordsApart (p.top_level + table_index va 39 * 8) entry
      → WordsApart (t.pml3 + table_index va 30 * 8) entry
      → load64 s.mem entry < 2 ^ 64
      → pa < 2 ^ 52
      → pa % mib2 ≡ 0
      → (s' : Pmm) × (map hhdm slabs gib1_pages p va pa flags cache s ≡ ok true s')
        × (virtual_to_physical hhdm slabs p va flags s'
            ≡ ok (pa + (if has_pat cache then 0x1000 else 0) + va % mib2) s')
  unfolding virtual_to_physical
  map-virtual_to_physical_large a3 a2 ho hp e =
      let old = load64 s.mem entry in
      let first = set_address old pa in
      let s' : Pmm = record s { mem = mapped } in
      let kept : (a : ℕ) → WordsApart a entry → load64 mapped a ≡ load64 s.mem a = λ a o.
        load64-store64_ne (store64 s.mem entry first) entry (large_entry old pa flags cache) a o
        ∙ load64-store64_ne s.mem entry first a o in
      let t' : LargeTables hhdm mapped p va = record {
        pml3 = t.pml3;
        pml2 = t.pml2;
        top = t.top;
        to_pml3 = Leads-kept hhdm s.mem mapped _ _ (kept _ a3) t.to_pml3;
        to_pml2 = Leads-kept hhdm s.mem mapped _ _ (kept _ a2) t.to_pml2;
      } in
      let value : load64 mapped entry ≡ large_entry old pa flags cache =
        load64-store64 _ entry _ (set_flags-lt first _ (large_flags-lt flags cache)) in
      let present =
        ap (λ v. has_flags v Arch.present) value ∙ large_entry-present old pa flags cache in
      let address = ap get_address value ∙ get_address-large_entry old pa flags cache ho hp e in
      (
        s',
        map-mapped ho (omega arith),
        ground (
          arith,
          size,
          virtual_to_pt_entry-LargeTables hhdm slabs va p false s' z t',
          ne→== entry 0 (λ q. t.to_pml2.ne_null (omega arith)),
          present,
        )
            ∙ ap (λ x. ok x s') (ap (λ v. add64 v (va % mib2)) address ∙ ground (arith, hp)),
      )
