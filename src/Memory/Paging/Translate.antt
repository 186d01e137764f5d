-- ===== src/Memory/Paging/Translate.antt =====
-- Mapping a 4 KiB page and translating an address in it, kernel/arch/x86_64/memory/virtual.cpp.
pub mod Entry
use ice.Prelude.{
  ℕ, ◌+◌, ◌*◌, ◌%◌, ◌^◌, ◌<◌, ◌≤◌, ◌≡◌, ◌≢◌, ◌⊎◌, refl, sym, ap, ◌∙◌, arith, Mem, IsBytes, load64,
  store64, load64-store64, load64-store64_ne, bit, bit_not, bit_and, bit_and-lt, bit_not-lt,
  bit_and_mask, bit-bit_or, bit-le_one, bit-div, bit_or, bit_or-lt, Bool, true, false, not, ◌&&◌,
  ◌==◌, ne→==, ==_iff, if◌then◌else◌,
}
use mathlib.Core.Path.{subst}
use ice.Utils.Math.{tohh, add64}
use ice.Memory.Physical.{Pmm}
use ice.Memory.Slab.{Run, ok}
use ice.Memory.Paging.{
  Pagemap, virtual_to_pt_entry, table_index, kib4, mib2, gib1, get_page_size, virtual_to_physical,
  map_one, map,
}
use ice.Memory.Paging.Entry.{
  pa_mask, has_flags, get_address, set_address, set_flags, flags_to_arch, cache_to_flags, Caching,
}
use ice.Memory.Paging.Entry.Flag
use ice.Memory.Paging.Entry.Arch
use ice.Memory.Paging.Entry.Laws.{
  get_address-set_address, get_address-set_flags, get_address_page, get_address-flags_to_arch,
  flags_to_arch-lt, get_address-cache, cache-lt, get_address-or, flags_to_arch_lem,
}
use ice.Memory.Paging.Walk.{HasSizes, Leads, Tables, virtual_to_pt_entry_lem}
use Entry.{
  page_flags, mapped_entry, set_address-lt, set_flags-lt, page_flags-lt, mapped_entry-present,
  get_address-mapped_entry,
}

-- Words of 8 bytes that share no byte.
abbrev pub WordsApart : ℕ → ℕ → Type 0
WordsApart a b = (a + 8 ≤ b) ⊎ (b + 8 ≤ a)

pub add64-small : (a b : ℕ) → a + b < 2 ^ 64 → add64 a b ≡ a + b
unfolding add64
add64-small a b h = omega arith

-- The address of the entry of `va`, where its tables are present.
abbrev pub entry_at : (hhdm va : ℕ) (p : Pagemap) (m : Mem) → Tables hhdm m p va → ℕ
entry_at hhdm va p m t = t.pml1 + table_index va 12 * 8

-- The memory after `map`.
abbrev pub mapped_mem : Mem → ℕ → ℕ → ℕ → Caching → Mem
mapped_mem m entry pa flags cache =
    store64 (store64 m entry (set_address (load64 m entry) pa)) entry
      (mapped_entry (load64 m entry) pa flags cache)

pub map_one-eq :
    (hhdm slabs va pa flags : ℕ) (cache : Caching) (p : Pagemap) (s : Pmm)
    → HasSizes p
    → (t : Tables hhdm s.mem p va) → load64 s.mem (entry_at hhdm va p s.mem t) < 2 ^ 64
    → pa < 2 ^ 64
    → t.pml1 ≢ 0
    → map_one hhdm slabs p va pa flags cache kib4 s
      ≡ ok true (record s { mem = mapped_mem s.mem (entry_at hhdm va p s.mem t) pa flags cache })
unfolding map_one
map_one-eq hhdm slabs va pa flags cache p s z t ho hp n =
    let entry = t.pml1 + table_index va 12 * 8 in
    let first = set_address (load64 s.mem entry) pa in
    ground (
      arith,
      virtual_to_pt_entry_lem hhdm slabs va p true s z t,
      ne→== entry 0 (λ e. n (omega arith)),
      (==_iff kib4 p.page_size).1 (sym z.small),
      load64-store64 s.mem entry first (set_address-lt (load64 s.mem entry) pa ho hp),
    )

-- Where the tables of an address are present, so is its translation.
pub virtual_to_physical-eq :
    (hhdm slabs va flags : ℕ) (p : Pagemap) (s : Pmm)
    → HasSizes p
    → get_page_size p flags ≡ kib4
    → (t : Tables hhdm s.mem p va) → t.pml1 ≢ 0
    → has_flags (load64 s.mem (entry_at hhdm va p s.mem t)) Arch.present ≡ true
    → virtual_to_physical hhdm slabs p va flags s
      ≡ ok (add64 (get_address (load64 s.mem (entry_at hhdm va p s.mem t))) (va % kib4)) s
unfolding virtual_to_physical
virtual_to_physical-eq hhdm slabs va flags p s z g t n h =
    let entry = t.pml1 + table_index va 12 * 8 in
    ground (
      arith,
      g,
      virtual_to_pt_entry_lem hhdm slabs va p false s z t,
      ne→== entry 0 (λ e. n (omega arith)),
      h,
    )

-- The page's entry shares no byte with the entries above it.
pub record Apart (hhdm : ℕ) (m : Mem) (p : Pagemap) (va : ℕ) (t : Tables hhdm m p va) : Type 0 where
  pub from_top : WordsApart (p.top_level + table_index va 39 * 8) (entry_at hhdm va p m t)
  pub from_pml3 : WordsApart (t.pml3 + table_index va 30 * 8) (entry_at hhdm va p m t)
  pub from_pml2 : WordsApart (t.pml2 + table_index va 21 * 8) (entry_at hhdm va p m t)

pub mapped_mem-elsewhere :
    (m : Mem) (entry pa flags : ℕ) (cache : Caching) (a : ℕ)
    → WordsApart a entry
    → load64 (mapped_mem m entry pa flags cache) a ≡ load64 m a
mapped_mem-elsewhere m entry pa flags cache a h =
    let first = set_address (load64 m entry) pa in
    load64-store64_ne (store64 m entry first) entry (mapped_entry (load64 m entry) pa flags cache) a
      h
    ∙ load64-store64_ne m entry first a h

pub Leads-kept :
    (hhdm : ℕ) (m m' : Mem) (slot table : ℕ)
    → load64 m' slot ≡ load64 m slot
    → Leads hhdm m slot table
    → Leads hhdm m' slot table
Leads-kept hhdm m m' slot table e l = record {
  is_present = ap (λ v. has_flags v Arch.present) e ∙ l.is_present;
  target = ap (λ v. tohh hhdm (get_address v)) e ∙ l.target;
  ne_null = l.ne_null;
}

-- Writing the entry leaves the tables above it.
abbrev Tables-kept :
    (hhdm va pa flags : ℕ) (cache : Caching) (p : Pagemap) (m : Mem) (t : Tables hhdm m p va)
    → Apart hhdm m p va t
    → Tables hhdm (mapped_mem m (entry_at hhdm va p m t) pa flags cache) p va
Tables-kept hhdm va pa flags cache p m t d =
    let entry = entry_at hhdm va p m t in
    let m' = mapped_mem m entry pa flags cache in
    let kept = mapped_mem-elsewhere m entry pa flags cache in
    record {
      pml3 = t.pml3;
      pml2 = t.pml2;
      pml1 = t.pml1;
      top = t.top;
      to_pml3 = Leads-kept hhdm m m' _ _ (kept _ d.from_top) t.to_pml3;
      to_pml2 = Leads-kept hhdm m m' _ _ (kept _ d.from_pml3) t.to_pml2;
      to_pml1 = Leads-kept hhdm m m' _ _ (kept _ d.from_pml2) t.to_pml1;
    }

pub get_page_size-small :
    (p : Pagemap) (flags : ℕ)
    → HasSizes p
    → has_flags flags Flag.llpage ≡ false
    → has_flags flags Flag.lpage ≡ false
    → get_page_size p flags ≡ kib4
unfolding get_page_size
get_page_size-small p flags z h g = rw (h, g, z.small)

pub map-eq :
    (hhdm slabs va pa flags : ℕ) (gib1_pages : Bool) (cache : Caching) (p : Pagemap) (s : Pmm)
    → HasSizes p
    → get_page_size p flags ≡ kib4
    → map hhdm slabs gib1_pages p va pa flags cache s
      ≡ map_one hhdm slabs p va pa flags cache kib4 s
unfolding map
map-eq hhdm slabs va pa flags gib1_pages cache p s z g =
    ground (arith, g, ne→== kib4 p.llpage_size (omega (arith, z.largest)))

-- Let the tables of `va` be present, the entry of its 4 KiB page apart from those above it and a
-- 64-bit word, `pa` the address of a 4 KiB page below 2 ^ 52 and `flags` without the large pages'.
-- Then `map` succeeds, `virtual_to_physical` in the new state gives `pa` with the offset of `va` in
-- its page, and every word apart from the entry is as before.
pub map-virtual_to_physical :
    (hhdm slabs va pa flags : ℕ) (gib1_pages : Bool) (cache : Caching) (p : Pagemap) (s : Pmm)
    → HasSizes p
    → has_flags flags Flag.llpage ≡ false
    → has_flags flags Flag.lpage ≡ false
    → (t : Tables hhdm s.mem p va) → Apart hhdm s.mem p va t
    → load64 s.mem (entry_at hhdm va p s.mem t) < 2 ^ 64
    → pa < 2 ^ 52
    → pa % 0x1000 ≡ 0
    → (s' : Pmm) × (map hhdm slabs gib1_pages p va pa flags cache s ≡ ok true s')
      × (virtual_to_physical hhdm slabs p va flags s' ≡ ok (pa + va % 0x1000) s')
      × ((a : ℕ) → WordsApart a (entry_at hhdm va p s.mem t) → load64 s'.mem a ≡ load64 s.mem a)
map-virtual_to_physical hhdm slabs va pa flags gib1_pages cache p s z h g t d ho hp e =
    let entry = entry_at hhdm va p s.mem t in
    let old = load64 s.mem entry in
    let s' : Pmm = record s { mem = mapped_mem s.mem entry pa flags cache } in
    let small = get_page_size-small p flags z h g in
    let value : load64 s'.mem entry ≡ mapped_entry old pa flags cache =
      load64-store64 _ entry _ (set_flags-lt _ _ (page_flags-lt flags cache)) in
    (
      s',
      map-eq hhdm slabs va pa flags gib1_pages cache p s z small
          ∙ map_one-eq hhdm slabs va pa flags cache p s z t ho (omega arith) t.to_pml1.ne_null,
      virtual_to_physical-eq hhdm slabs va flags p s' z small
            (Tables-kept hhdm va pa flags cache p s.mem t d) t.to_pml1.ne_null
            (ap (λ v. has_flags v Arch.present) value ∙ mapped_entry-present old pa flags cache)
          ∙ ap (λ x. ok x s')
              (ap (λ v. add64 (get_address v) (va % kib4)) value
                ∙ ap (λ v. add64 v (va % kib4))
                    (get_address-mapped_entry old pa flags cache ho hp e)
                ∙ add64-small pa (va % kib4) (omega arith)),
      mapped_mem-elsewhere s.mem entry pa flags cache,
    )
